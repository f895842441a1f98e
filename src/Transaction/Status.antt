-- ===== src/Transaction/Status.antt =====
-- `TransactionStatus` (meshpay/types/common.py) and `_status_from_value`
-- (meshpay/types/transaction.py).
use meshpay.Base.{◌≡◌, refl, Option, none, some, String, ◌==◌, if◌then◌else◌}
use meshpay.Value.{Value, text, Result, ok, err, value_error}

pub data TransactionStatus : Type 0 where
  pending confirmed rejected buffered expired failed : TransactionStatus

-- `status.value`
abbrev pub status_value : TransactionStatus → String
status_value TransactionStatus.pending = "pending"
status_value TransactionStatus.confirmed = "confirmed"
status_value TransactionStatus.rejected = "rejected"
status_value TransactionStatus.buffered = "buffered"
status_value TransactionStatus.expired = "expired"
status_value TransactionStatus.failed = "failed"

-- `TransactionStatus(value)`
abbrev pub status_of_text : String → Result TransactionStatus
status_of_text s =
    if s == "pending"
    then ok TransactionStatus.pending
    else if s == "confirmed"
    then ok TransactionStatus.confirmed
    else if s == "rejected"
    then ok TransactionStatus.rejected
    else if s == "buffered"
    then ok TransactionStatus.buffered
    else if s == "expired"
    then ok TransactionStatus.expired
    else if s == "failed"
    then ok TransactionStatus.failed
    else err value_error

-- `_status_from_value` of a value that is no status: no text counts as pending.
abbrev pub status_from_value : Value → Result TransactionStatus
status_from_value (text s) = status_of_text s
status_from_value _ = ok TransactionStatus.pending

-- `_status_from_value(data.get(key, default))`
abbrev pub status_or : TransactionStatus → Option Value → Result TransactionStatus
status_or default none = ok default
status_or default (some v) = status_from_value v

pub status_of-value : (s : TransactionStatus) → status_of_text (status_value s) ≡ ok s
status_of-value TransactionStatus.pending = refl
status_of-value TransactionStatus.confirmed = refl
status_of-value TransactionStatus.rejected = refl
status_of-value TransactionStatus.buffered = refl
status_of-value TransactionStatus.expired = refl
status_of-value TransactionStatus.failed = refl
