-- ===== src/Antichain.antt =====
-- `Antichain` and `AntichainRef` of timely/src/progress/frontier.rs. A method that mutates `self`
-- returns the new antichain first. An `AntichainRef` is the slice of elements.
pub mod Laws
pub mod Equality
use timely_dataflow.Prelude.{
  ℕ, Bool, true, false, not, ◌&&◌, ◌||◌, List, [], ◌∷◌, ◌++◌, Option, none, some, if◌then◌else◌,
  length, ◌==◌, any, all, retain,
}
use timely_dataflow.Order.{Eq, PartialOrder, Ord, less_than}
use timely_dataflow.Sort.{sort_by}

pub record Antichain {ℓ} (T : Type ℓ) : Type ℓ where
  pub elements : List T

module _ {ℓ} {T : Type ℓ} where
  unfoldable pub new : Antichain T
  new = record { elements = [] }

  unfoldable pub from_elem : T → Antichain T
  from_elem element = record { elements = element ∷ [] }

  unfoldable pub clear : Antichain T → Antichain T
  clear a = record { elements = [] }

  -- `slice::last`, and what `pop` returns.
  unfoldable pub last : List T → Option T
  last [] = none
  last (x ∷ []) = some x
  last (x ∷ y ∷ ys) = last (y ∷ ys)

  unfoldable pub into_option : Antichain T → Option T
  into_option a = last a.elements

  unfoldable pub as_option : Antichain T → Option T
  as_option a = last a.elements

  unfoldable pub sort : ⦃o : Ord T⦄ → Antichain T → Antichain T
  sort ⦃o⦄ a = record { elements = sort_by o.cmp a.elements }

-- `zip(..).all(..)`, which stops at the end of the shorter list.
unfoldable pub zip_all {ℓ} : {T : Type ℓ} → (T → T → Bool) → List T → List T → Bool
zip_all p [] ys = true
zip_all p (x ∷ xs) [] = true
zip_all p (x ∷ xs) (y ∷ ys) = p x y && zip_all p xs ys

module _ {ℓ} {T : Type ℓ} ⦃p : PartialOrder T⦄ where
  unfoldable pub insert : Antichain T → T → Antichain T × Bool
  insert a element =
      if not (any (λ x. p.less_equal x element) a.elements)
      then (
        record { elements = retain (λ x. not (p.less_equal element x)) a.elements ++ element ∷ [] },
        true,
      )
      else (a, false)

  -- `insert_ref` clones the element that it is given a reference to.
  unfoldable pub insert_ref : Antichain T → T → Antichain T × Bool
  insert_ref a element =
      if not (any (λ x. p.less_equal x element) a.elements)
      then (
        record { elements = retain (λ x. not (p.less_equal element x)) a.elements ++ element ∷ [] },
        true,
      )
      else (a, false)

  -- `extend`, from a state and the flag so far.
  unfoldable pub extend_from : Antichain T → Bool → List T → Antichain T × Bool
  extend_from a added [] = (a, added)
  extend_from a added (element ∷ rest) =
      let (a', fresh) = insert a element in extend_from a' (fresh || added) rest

  unfoldable pub extend : Antichain T → List T → Antichain T × Bool
  extend a elements = extend_from a false elements

  unfoldable pub from_iter : List T → Antichain T
  from_iter elements = (extend new elements).0

  -- `From<Vec<T>>`, its own loop of insertions.
  unfoldable pub from_vec_loop : Antichain T → List T → Antichain T
  from_vec_loop temp [] = temp
  from_vec_loop temp (elem ∷ rest) = from_vec_loop (insert temp elem).0 rest

  unfoldable pub from_vec : List T → Antichain T
  from_vec vec = from_vec_loop new vec

  unfoldable pub less_equal : Antichain T → T → Bool
  less_equal a time = any (λ x. p.less_equal x time) a.elements

  -- `less_equal` of the impl `PartialOrder for Antichain<T>`.
  unfoldable pub dominates : Antichain T → Antichain T → Bool
  dominates a b = all (λ t2. any (λ t1. p.less_equal t1 t2) a.elements) b.elements

module _ {ℓ} {T : Type ℓ} ⦃e : Eq T⦄ where
  -- `eq` of the impl `PartialEq for Antichain<T>`.
  unfoldable pub equal : Antichain T → Antichain T → Bool
  equal a b =
      length a.elements == length b.elements
      && (zip_all e.equal a.elements b.elements
          || all (λ t1. any (λ t2. e.equal t1 t2) b.elements) a.elements)

  unfoldable pub less_than_elem : ⦃p : PartialOrder T⦄ → Antichain T → T → Bool
  less_than_elem a time = any (λ x. less_than x time) a.elements
