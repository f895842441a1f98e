-- ===== src/Authority/Balances.antt =====
-- The sum of the balances that an authority keeps.
use meshpay.Base.{◌≡◌, none, some, String, [], ◌∷◌, Dict, lookup, insert, ℤ, pos, ◌+ℤ◌, int_laws}
use meshpay.Account.{Account}

abbrev pub total_balance : Dict Account → ℤ
total_balance [] = pos 0
total_balance ((k, a) ∷ d) = a.balance +ℤ total_balance d

pub total_balance-insert :
    (k : String) (v old : Account) (d : Dict Account)
    → lookup k d ≡ some old
    → total_balance (insert k v d) +ℤ old.balance ≡ total_balance d +ℤ v.balance
total_balance-insert k v old [] h = cc
total_balance-insert k v old ((j, a) ∷ d) h = grind (int_laws, total_balance-insert k v old d)

pub total_balance-insert_new :
    (k : String) (v : Account) (d : Dict Account)
    → lookup k d ≡ none
    → total_balance (insert k v d) ≡ total_balance d +ℤ v.balance
total_balance-insert_new k v [] h = omega int_laws
total_balance-insert_new k v ((j, a) ∷ d) h = grind (int_laws, total_balance-insert_new k v d)
