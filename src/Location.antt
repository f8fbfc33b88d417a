-- ===== src/Location.antt =====
-- timely/src/progress/mod.rs: the places of a dataflow graph, and their derived equality and order.
use timely_dataflow.Prelude.{ℕ, ◌≡◌, refl, ap, Bool, true, false, zero, suc, sym, ◌∙◌}
use timely_dataflow.Order.{Eq, Ord}
use timely_dataflow.Order.Numbers.{nat_eq, nat_ord}
use timely_dataflow.Order.Pair.{pair_eq, pair_ord}
use timely_dataflow.Order.Pullback.{eq_by, ord_by}

-- An operator port: an input or an output.
pub data Port : Type 0 where
  target : ℕ → Port
  source : ℕ → Port

pub record Location : Type 0 where
  pub node : ℕ
  pub port : Port

-- The input of an operator, or an output of the scope.
pub record Target : Type 0 where
  pub node : ℕ
  pub port : ℕ

-- The output of an operator, or an input of the scope.
pub record Source : Type 0 where
  pub node : ℕ
  pub port : ℕ

abbrev pub new_target : ℕ → ℕ → Location
new_target node port = record { node = node; port = target port }

abbrev pub new_source : ℕ → ℕ → Location
new_source node port = record { node = node; port = source port }

abbrev pub is_target : Location → Bool
is_target l = elim l.port [ target p ↦ true | source p ↦ false ]

abbrev pub is_source : Location → Bool
is_source l = elim l.port [ target p ↦ false | source p ↦ true ]

-- The impls of `From`.
abbrev pub from_target : Target → Location
from_target t = new_target t.node t.port

abbrev pub from_source : Source → Location
from_source s = new_source s.node s.port

-- A port as its tag and its index: targets come first.
abbrev pub tagged : Port → ℕ × ℕ
tagged (target p) = (0, p)
tagged (source p) = (1, p)

untagged : ℕ × ℕ → Port
untagged (zero, p) = target p
untagged (suc n, p) = source p

tagged_left : (p : Port) → untagged (tagged p) ≡ p
unfolding untagged
tagged_left (target p) = refl
tagged_left (source p) = refl

abbrev pub location_view : Location → ℕ × (ℕ × ℕ)
location_view l = (l.node, tagged l.port)

location_of : ℕ × (ℕ × ℕ) → Location
location_of v = record { node = v.0; port = untagged v.1 }

location_of_view : (x : Location) → location_of (location_view x) ≡ x
unfolding location_of
location_of_view x = ap (λ p. record { node = x.node; port = p }) (tagged_left x.port)

pub location_inj : (x y : Location) → location_view x ≡ location_view y → x ≡ y
location_inj x y h = sym (location_of_view x) ∙ ap location_of h ∙ location_of_view y

instance abbrev pub location_eq : Eq Location
location_eq = eq_by location_view location_inj

instance abbrev pub location_ord : Ord Location
location_ord = ord_by location_view location_inj

abbrev pub target_view : Target → ℕ × ℕ
target_view t = (t.node, t.port)

pub target_inj : (x y : Target) → target_view x ≡ target_view y → x ≡ y
target_inj x y h = ap (λ (v : ℕ × ℕ). record { node = v.0; port = v.1 }) h

instance abbrev pub target_eq : Eq Target
target_eq = eq_by target_view target_inj

instance abbrev pub target_ord : Ord Target
target_ord = ord_by target_view target_inj

abbrev pub source_view : Source → ℕ × ℕ
source_view s = (s.node, s.port)

pub source_inj : (x y : Source) → source_view x ≡ source_view y → x ≡ y
source_inj x y h = ap (λ (v : ℕ × ℕ). record { node = v.0; port = v.1 }) h

instance abbrev pub source_eq : Eq Source
source_eq = eq_by source_view source_inj

instance abbrev pub source_ord : Ord Source
source_ord = ord_by source_view source_inj
