-- ===== src/Js/Keys.antt =====
-- `Object.keys(value).sort().join('\0')` against the sorted names that a validator wants.
use cuda_js.Base.{◌≡◌, refl, arith, Bool, false, List, [], ◌∷◌, ◌++◌, if◌then◌else◌}
use cuda_js.Base.Counts.{count}
use cuda_js.Js.Chars.{Text, text_eq, text_lt}
use cuda_js.Js.Data.{Value, object, exotic, Fields, bare, entry}

keys : Fields → List Text
keys bare = []
keys (entry k v fs) = k ∷ keys fs

-- A stable sort by code units.
unfoldable pub insert_text : Text → List Text → List Text
insert_text t [] = t ∷ []
insert_text t (u ∷ us) = if text_lt u t then u ∷ insert_text t us else t ∷ u ∷ us

unfoldable pub sort_texts : List Text → List Text
unfolding insert_text text_lt
sort_texts [] = []
sort_texts (t ∷ ts) = insert_text t (sort_texts ts)

count-insert_text :
    (a t : Text) (us : List Text) → count text_eq a (insert_text t us) ≡ count text_eq a (t ∷ us)
unfolding insert_text
count-insert_text a t [] = refl
count-insert_text a t (u ∷ us) = ground (arith, count-insert_text a t us)

-- A sort loses nothing and adds nothing.
pub count-sort_texts :
    (a : Text) (ts : List Text) → count text_eq a (sort_texts ts) ≡ count text_eq a ts
unfolding sort_texts
count-sort_texts a [] = refl
count-sort_texts a (t ∷ ts) =
    ground (arith, count-insert_text a t (sort_texts ts), count-sort_texts a ts)

join_null : List Text → Text
join_null [] = []
join_null (t ∷ []) = t
join_null (t ∷ u ∷ us) = t ++ 0 ∷ join_null (u ∷ us)

unfoldable pub exact_fields : Value → List Text → Bool
unfolding keys sort_texts join_null text_eq
exact_fields (object fs) names =
    text_eq (join_null (sort_texts (keys fs))) (join_null (sort_texts names))
exact_fields (exotic fs) names =
    text_eq (join_null (sort_texts (keys fs))) (join_null (sort_texts names))
exact_fields _ names = false
