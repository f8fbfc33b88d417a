-- ===== src/Notificator/Next.antt =====
-- What `next_count` delivers.
use timely_dataflow.Prelude.{
  ℕ, ◌⊎◌, ◌≡◌, ◌≢◌, refl, sym, ◌∙◌, inl, inr, true, false, Bool-cases, ◌&&◌, ◌==◌, List, [], ◌∷◌,
  Option, none, some, All, arith, add_i64, add_i64_assoc,
}
use Prim.Native.Nat.Ordering.{gt}
use timely_dataflow.Order.{Eq, PartialOrder, Ord}
use timely_dataflow.Sort.{IsSorted}
use timely_dataflow.ChangeBatch.Count.{count, share}
use timely_dataflow.Notificator.{
  Request, by_time, FrontierNotificator, is_past, make_available, take_equal, pop_front, next_count,
}
use timely_dataflow.Capability.{equal}
use timely_dataflow.Notificator.View.{view, requests}
use timely_dataflow.Notificator.Delivery.{outstanding, make_available_correct}

take_sum :
    (p x a b c : ℕ) → add_i64 x b ≡ add_i64 a c → add_i64 p (add_i64 a c) ≡ add_i64 x (add_i64 p b)
unfolding add_i64
take_sum p x a b c h = omega arith

module _ {ℓ} {T : Type ℓ} ⦃e : Eq T⦄ ⦃p : PartialOrder T⦄ ⦃o : Ord T⦄ where
  -- What is taken off counts as its parts do.
  requests-take_equal :
      (k : T) (front : Request T) (c : ℕ) (us : List (Request T))
      → let (total, left) = take_equal front c us in
        add_i64 (share k (front.0.time, total)) (requests k left)
        ≡ add_i64 (share k (front.0.time, c)) (requests k us)
  unfolding take_equal equal requests count
  requests-take_equal k front c [] = refl
  requests-take_equal k front c ((cap, d) ∷ us) =
      elim (Bool-cases (equal cap front.0 && d == front.1)) [
        | inl same ↦
            let here : cap.time ≡ front.0.time =
              e.eq_of_equal cap.time front.0.time (ground arith) in
            rw same (
              requests-take_equal k front (add_i64 c d) us
              ∙ rw here (elim (Bool-cases (e.equal front.0.time k)) [
                | inl hit ↦ rw hit (add_i64_assoc c d (requests k us))
                | inr miss ↦ rw miss (absorb (requests k us))
              ]))
        | inr other ↦ rw other refl
      ]
    where
      absorb : (a : ℕ) → add_i64 0 a ≡ add_i64 0 (add_i64 0 a)
      absorb a = unfold add_i64 in omega arith

  take_equal-All {κ} :
      (P : Request T → Type κ) (front : Request T) (c : ℕ) (us : List (Request T))
      → All P us
      → All P (take_equal front c us).1
  unfolding take_equal
  take_equal-All P front c [] h = tt
  take_equal-All P front c ((cap, d) ∷ us) h =
      elim (Bool-cases (equal cap front.0 && d == front.1)) [
        | inl same ↦ rw same (take_equal-All P front (add_i64 c d) us h.1)
        | inr other ↦ rw other h
      ]

  trans_le : (a b c : T) → o.cmp a b ≢ gt → o.cmp b c ≢ gt → o.cmp a c ≢ gt
  trans_le a b c h g = ground (arith, o.lt_trans a b c, o.eq_of_cmp a b, o.eq_of_cmp b c)

  -- In an ordered list the head stands before all others.
  head_first :
      (u : Request T) (us : List (Request T))
      → IsSorted by_time (u ∷ us)
      → All (λ (v : Request T). o.cmp u.0.time v.0.time ≢ gt) us
  head_first u [] h = tt
  head_first u (v ∷ []) h = (h.0, tt)
  head_first u (v ∷ w ∷ us) h =
      (h.0, head_first u (w ∷ us) (trans_le u.0.time v.0.time w.0.time h.0 h.1.0, h.1.1))

  -- A delivery: its count is taken from what was outstanding, its time is past all frontiers, and no
  -- available time stands before it.
  pub record IsDelivery (frontiers : List (List T)) (before after : FrontierNotificator T)
      (u : Request T) : Type ℓ where
    pub exact : (k : T) → outstanding k before ≡ add_i64 (share k (view u)) (outstanding k after)
    pub past : is_past frontiers u.0.time ≡ true
    pub first : All (λ (v : Request T). o.cmp u.0.time v.0.time ≢ gt) after.available

  pop_front-IsDelivery :
      (frontiers : List (List T)) (pending : List (Request T)) (front : Request T)
      (rest : List (Request T))
      → IsSorted by_time (front ∷ rest)
      → All (λ (u : Request T). is_past frontiers u.0.time ≡ true) (front ∷ rest)
      → let n : FrontierNotificator T = record { pending = pending; available = front ∷ rest } in
        let (count, left) = take_equal front front.1 rest in
        IsDelivery frontiers n (record { pending = pending; available = left }) (front.0, count)
  unfolding outstanding requests count
  pop_front-IsDelivery frontiers pending front rest sorted past = record {
    exact = λ k.
        take_sum (requests k pending) _ (share k (view front)) _ (requests k rest)
          (requests-take_equal k front front.1 rest);
    past = past.0;
    first =
        take_equal-All (λ v. o.cmp front.0.time v.0.time ≢ gt) front front.1 rest
          (head_first front rest sorted);
  }

  -- What a call comes to: a delivery, or nothing, where all requests have to wait.
  abbrev pub Delivers :
      List (List T) → FrontierNotificator T → FrontierNotificator T × Option (Request T) → Type ℓ
  Delivers frontiers before (after, delivered) =
      ((delivered ≡ none)
        × ((k : T) → outstanding k after ≡ outstanding k before)
        × (after.available ≡ [])
        × All (λ (u : Request T). is_past frontiers u.0.time ≡ false) after.pending)
      ⊎ ((u : Request T) × (delivered ≡ some u) × IsDelivery frontiers before after u)

  pop_front-Delivers :
      (frontiers : List (List T)) (pending available : List (Request T))
      → IsSorted by_time available
      → All (λ (u : Request T). is_past frontiers u.0.time ≡ true) available
      → All (λ (u : Request T). is_past frontiers u.0.time ≡ false) pending
      → let n : FrontierNotificator T = record { pending = pending; available = available } in
        Delivers frontiers n (pop_front n)
  unfolding pop_front
  pop_front-Delivers frontiers pending [] sorted past waiting = inl (refl, λ k. refl, refl, waiting)
  pop_front-Delivers frontiers pending (front ∷ rest) sorted past waiting =
      inr (_, refl, pop_front-IsDelivery frontiers pending front rest sorted past)

  -- A delivery from where as much is outstanding.
  Delivers-same :
      (frontiers : List (List T)) (n m : FrontierNotificator T)
      (result : FrontierNotificator T × Option (Request T))
      → ((k : T) → outstanding k m ≡ outstanding k n)
      → Delivers frontiers m result
      → Delivers frontiers n result
  Delivers-same frontiers n m result h (inl (nothing, same, empty, waiting)) =
      inl (nothing, λ k. same k ∙ h k, empty, waiting)
  Delivers-same frontiers n m result h (inr (u, is, d)) =
      inr (u, is, record { exact = λ k. sym (h k) ∙ d.exact k; past = d.past; first = d.first })

  next_count-cases :
      (frontiers : List (List T)) (pending available : List (Request T))
      → IsSorted by_time available
      → All (λ (u : Request T). is_past frontiers u.0.time ≡ true) available
      → let n : FrontierNotificator T = record { pending = pending; available = available } in
        Delivers frontiers n (next_count n frontiers)
  unfolding next_count pop_front
  next_count-cases frontiers pending [] sorted past =
      let n : FrontierNotificator T = record { pending = pending; available = [] } in
      let (same, sorted', past', waiting) = make_available_correct n frontiers tt tt in
      let n' = make_available n frontiers in
      Delivers-same frontiers n n' (pop_front n') same
        (pop_front-Delivers frontiers n'.pending n'.available sorted' past' waiting)
  next_count-cases frontiers pending (front ∷ rest) sorted past =
      inr (_, refl, pop_front-IsDelivery frontiers pending front rest sorted past)

  -- On a notificator whose available times are in order and past the frontiers, `next_count` delivers
  -- nothing only if afterwards none is available and every pending request has to wait for some
  -- frontier, and then as much is outstanding as before; else it delivers a time past all frontiers,
  -- before which no available time stands, and a count; for every time what was outstanding is what
  -- still is, plus that count at the delivered time.
  pub next_count_correct :
      (n : FrontierNotificator T) (frontiers : List (List T))
      → IsSorted by_time n.available
      → All (λ (u : Request T). is_past frontiers u.0.time ≡ true) n.available
      → Delivers frontiers n (next_count n frontiers)
  next_count_correct n frontiers = next_count-cases frontiers n.pending n.available
