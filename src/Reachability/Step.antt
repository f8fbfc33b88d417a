-- ===== src/Reachability/Step.antt =====
-- What one step of `propagate_all` keeps and moves, and that such steps compose.
use timely_dataflow.Prelude.{ℕ, ◌≡◌, refl, sym, ap, ◌∙◌, true, add_i64, add_i64-zero, add_i64_assoc}
use timely_dataflow.Order.{Eq, PartialOrder, Ord}
use timely_dataflow.Order.Pair.{pair_eq, pair_ord}
use timely_dataflow.Location.{Location, location_eq, location_ord}
use timely_dataflow.Timestamp.{PathSummary}
use timely_dataflow.Reachability.{Tracker}
use timely_dataflow.Reachability.Balance.{
  has_port, recorded, recorded-lt, IsShaped, IsBalanced, IsNoted, IsNoted-refl, IsNoted-trans,
}

module _ {ℓ κ} {T : Type ℓ} {TS : Type κ} ⦃e : Eq T⦄ ⦃p : PartialOrder T⦄ ⦃o : Ord T⦄
    (s : PathSummary TS T) where
  -- A tracker that fits its graph and is balanced, and has noted what changed since `before`.
  pub record IsProgress (before after : Tracker T TS) : Type (ℓ ⊔ κ) where
    pub shaped : IsShaped s after
    pub balanced : IsBalanced s after
    pub noted : IsNoted s before after

  -- Progress that tells the pointstamps so much more, keeps every port, and leaves the buffers alone.
  pub record IsStep (told : T × Location → ℕ) (before after : Tracker T TS) : Type (ℓ ⊔ κ) where
    pub progress : IsProgress before after
    pub stays :
        (m : Location)
        → has_port before.per_operator m ≡ true
        → has_port after.per_operator m ≡ true
    pub records :
        (k : T × Location)
        → recorded k after.per_operator ≡ add_i64 (recorded k before.per_operator) (told k)
    pub targets_stay : after.target_changes ≡ before.target_changes
    pub sources_stay : after.source_changes ≡ before.source_changes

  pub IsStep-refl : (x : Tracker T TS) → IsShaped s x → IsBalanced s x → IsStep (λ k. 0) x x
  IsStep-refl x h b = record {
    progress = record { shaped = h; balanced = b; noted = IsNoted-refl s x };
    stays = λ m at. at;
    records = λ k. sym (add_i64-zero _ (recorded-lt k x.per_operator));
    targets_stay = refl;
    sources_stay = refl;
  }

  pub IsStep-trans :
      (f g : T × Location → ℕ) (x y z : Tracker T TS)
      → IsStep f x y
      → IsStep g y z
      → IsStep (λ k. add_i64 (f k) (g k)) x z
  IsStep-trans f g x y z h r = record {
    progress = record {
      shaped = r.progress.shaped;
      balanced = r.progress.balanced;
      noted = IsNoted-trans s x y z h.progress.noted r.progress.noted;
    };
    stays = λ m at. r.stays m (h.stays m at);
    records = λ k.
        r.records k
        ∙ ap (λ c. add_i64 c (g k)) (h.records k)
        ∙ add_i64_assoc (recorded k x.per_operator) (f k) (g k);
    targets_stay = r.targets_stay ∙ h.targets_stay;
    sources_stay = r.sources_stay ∙ h.sources_stay;
  }

  pub IsStep-told :
      (f g : T × Location → ℕ) (x y : Tracker T TS)
      → ((k : T × Location) → f k ≡ g k)
      → IsStep f x y
      → IsStep g x y
  IsStep-told f g x y h r = record {
    progress = r.progress;
    stays = r.stays;
    records = λ k. r.records k ∙ ap (add_i64 (recorded k x.per_operator)) (h k);
    targets_stay = r.targets_stay;
    sources_stay = r.sources_stay;
  }
