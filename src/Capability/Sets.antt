-- ===== src/Capability/Sets.antt =====
-- Capability sets: `try_downgrade` to a frontier.
use timely_dataflow.Prelude.{
  ◌≡◌, ◌⊎◌, refl, sym, ap, ◌∙◌, subst, fun_ext, inl, inr, Bool, true, false, List, [], ◌∷◌, ◌++◌,
  map, none, some, any, all, any-append, append_assoc, append-nil, length, arith, Bool-cases,
  add_i64,
}
use timely_dataflow.Order.{Eq, PartialOrder, Ord}
use timely_dataflow.Capability.{
  Capability, Store, new, release, release_front, try_delayed, set_try_delayed, delay_all,
  set_try_downgrade,
}
use timely_dataflow.Capability.Balance.{
  Conserves, Conserves-refl, Conserves-trans, held-append, new_correct, release_correct,
}

module _ {ℓ} {T : Type ℓ} ⦃e : Eq T⦄ ⦃p : PartialOrder T⦄ ⦃o : Ord T⦄ where
  -- Whether a capability of the set is for a time at or before `t`.
  abbrev pub allows : List (Capability T) → T → Bool
  allows cs t = any (λ c. p.less_equal c.time t) cs

  set_try_delayed-cases :
      (s : Store T) (elements : List (Capability T)) (t : T)
      → ((allows elements t ≡ false) × (set_try_delayed s elements t ≡ none))
        ⊎ ((allows elements t ≡ true)
            × (s' : Store T) × (c : Capability T) × (set_try_delayed s elements t ≡ some (s', c))
            × (c.time ≡ t)
            × ((cs : List (Capability T)) → Conserves s cs s' (c ∷ cs)))
  unfolding set_try_delayed try_delayed
  set_try_delayed-cases s [] t = inl (refl, refl)
  set_try_delayed-cases s (c ∷ cs) t = elim (Bool-cases (p.less_equal c.time t)) [
    | inl le ↦ inr (
      rw le refl,
      (new s t c.internal).0,
      (new s t c.internal).1,
      rw le refl,
      unfold new in refl,
      λ ds. new_correct s t c.internal ds,
    )
    | inr not_le ↦ rw not_le (set_try_delayed-cases s cs t)
  ]

  Conserves-push :
      (s s' : Store T) (c : Capability T) (cs : List (Capability T))
      → Conserves s cs s' (c ∷ cs)
      → Conserves s cs s' (cs ++ c ∷ [])
  unfolding add_i64
  Conserves-push s s' c cs h i k = omega (arith, h i k, held-append i k cs (c ∷ []))

  allows_mono :
      (cs : List (Capability T)) (t u : T)
      → allows cs t ≡ true
      → p.less_equal t u ≡ true
      → allows cs u ≡ true
  allows_mono [] t u h k = h
  allows_mono (c ∷ cs) t u h k = ground (arith, allows_mono cs t u, p.le_trans c.time t u)

  -- A capability at a time that the set allows allows no further time.
  allows-push :
      (cs : List (Capability T)) (c : Capability T) (u : T)
      → allows cs c.time ≡ true
      → allows (cs ++ c ∷ []) u ≡ allows cs u
  allows-push cs c u h =
      any-append (λ d. p.less_equal d.time u) cs (c ∷ [])
      ∙ ground (arith, allows_mono cs c.time u h)

  release_front-length :
      (s : Store T) (front rest : List (Capability T))
      → let (s', left) = release_front s (length front) (front ++ rest) in
        Conserves s (front ++ rest) s' rest × (left ≡ rest)
  unfolding release_front
  release_front-length s [] rest = (Conserves-refl s rest, refl)
  release_front-length s (c ∷ cs) rest =
      let (drops, left) = release_front-length (release s c) cs rest in
      (
        Conserves-trans s (release s c) (release_front (release s c) (length cs) (cs ++ rest)).0
            (c ∷ cs ++ rest) (cs ++ rest) rest (release_correct s c (cs ++ rest)) drops,
        left,
      )

  delay_all-none :
      (s : Store T) (elements : List (Capability T)) (t : T) (frontier : List T)
      → set_try_delayed s elements t ≡ none
      → delay_all s elements (t ∷ frontier) ≡ (s, elements, false)
  unfolding delay_all
  delay_all-none s elements t frontier h = rw (h, delay_all) refl

  delay_all-some :
      (s : Store T) (elements : List (Capability T)) (t : T) (frontier : List T) (s' : Store T)
      (c : Capability T)
      → set_try_delayed s elements t ≡ some (s', c)
      → delay_all s elements (t ∷ frontier) ≡ delay_all s' (elements ++ c ∷ []) frontier
  unfolding delay_all
  delay_all-some s elements t frontier s' c h = rw (h, delay_all) refl

  -- The loop of `try_downgrade`: what it pushes is counted, also where it stops early, and it goes
  -- through if and only if the set as it was allows every time of the frontier.
  delay_all_correct :
      (s : Store T) (elements : List (Capability T)) (frontier : List T)
      → let (s', elements', ok) = delay_all s elements frontier in
        Conserves s elements s' elements'
        × (ok ≡ all (λ t. allows elements t) frontier)
        × (more : List (Capability T)) × (elements' ≡ elements ++ more)
        × ((ok ≡ false) ⊎ (map (λ c. c.time) more ≡ frontier))
  unfolding delay_all
  delay_all_correct s elements [] =
      (Conserves-refl s elements, refl, [], sym (append-nil elements), inr refl)
  delay_all_correct s elements (t ∷ frontier) = elim (set_try_delayed-cases s elements t) [
    | inl (refused, h) ↦
        rw (delay_all-none s elements t frontier h, refused)
          (Conserves-refl s elements, refl, [], sym (append-nil elements), inl refl)
    | inr (allowed, s', c, h, at_time, more) ↦
        let (conserves, ok, rest, appended, times) =
          delay_all_correct s' (elements ++ c ∷ []) frontier in
        rw (delay_all-some s elements t frontier s' c h, allowed)
          (
            Conserves-trans s s' (delay_all s' (elements ++ c ∷ []) frontier).0 elements
                (elements ++ c ∷ []) (delay_all s' (elements ++ c ∷ []) frontier).1
                (Conserves-push s s' c elements (more elements)) conserves,
            ok
                ∙ ap (λ f. all f frontier)
                    (fun_ext
                      (λ u. allows-push elements c u (ap (allows elements) at_time ∙ allowed))),
            c ∷ rest,
            appended ∙ append_assoc elements (c ∷ []) rest,
            elim times [
              | inl stopped ↦ inl stopped
              | inr same ↦ inr (ap (λ x. x ∷ map (λ d. d.time) rest) at_time ∙ ap (◌∷◌ t) same)
            ],
          )
  ]

  -- `try_downgrade` of a set to a frontier succeeds if and only if every time of the frontier is at
  -- or beyond the time of a capability of the set. Then the set holds one capability at each time
  -- of the frontier, in its order. On success and on an error the counts change with what the set
  -- holds.
  pub set_try_downgrade_correct :
      (s : Store T) (elements : List (Capability T)) (frontier : List T)
      → let (s', elements', ok) = set_try_downgrade s elements frontier in
        (ok ≡ all (λ t. allows elements t) frontier)
        × ((ok ≡ false) ⊎ (map (λ c. c.time) elements' ≡ frontier))
        × Conserves s elements s' elements'
  unfolding set_try_downgrade
  set_try_downgrade_correct s elements frontier =
      let (conserves, answer, more, appended, times) = delay_all_correct s elements frontier in
      let s' = (delay_all s elements frontier).0 in
      let elements' = (delay_all s elements frontier).1 in
      let (drops, left) = release_front-length s' elements more in
      elim (Bool-cases (delay_all s elements frontier).2) [
        | inl ok ↦
            rw (ok, appended, left)
              (
                sym ok ∙ answer,
                (elim times [ inl stopped ↦ inl (sym ok ∙ stopped) | inr same ↦ inr same ]),
                Conserves-trans s s' (release_front s' (length elements) (elements ++ more)).0
                    elements (elements ++ more) more
                    (subst (Conserves s elements s') appended conserves) drops,
              )
        | inr stopped ↦ rw stopped (sym stopped ∙ answer, inl refl, conserves)
      ]
