-- ===== src/Bundle/RoundTrip.antt =====
-- A bundle that is sent as JSON.
use meshpay.Base.{◌≡◌, refl, String, List, [], ◌∷◌}
use meshpay.Value.{ok}
use meshpay.Runtime.{Runtime}
use meshpay.Bundle.{Bundle, text_items, items_text, to_dict, from_dict}

pub items_text-text_items : (xs : List String) → items_text (text_items xs) ≡ ok xs
unfolding items_text text_items
items_text-text_items [] = refl
items_text-text_items (x ∷ xs) = rw (items_text-text_items xs)

-- A bundle is decoded from its dict as it was.
pub bundle-from_dict-to_dict : (rt : Runtime) (b : Bundle) → from_dict rt (to_dict b) ≡ ok b
unfolding from_dict to_dict
bundle-from_dict-to_dict rt b = rw (items_text-text_items b.hops)
