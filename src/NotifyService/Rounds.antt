-- ===== src/NotifyService/Rounds.antt =====
-- How the attempts of one notification follow each other, whatever the database does.
use go_pay.Prelude.{
  ℕ, zero, suc, ◌+◌, ◌^◌, ◌<◌, String, Bool, true, false, List, [], ◌∷◌, ◌++◌, ◌≡◌, ◌≢◌, refl, sym,
  ap, ◌∙◌, arith, inl, inr, Bool-cases, Option-cases, ltb, if◌then◌else◌,
}
use mathlib.Core.Path.{subst}
use mathlib.Core.List.{append-nil, append_assoc}
use go_pay.Errors.{GoError, Result, ok, err}
use go_pay.Models.{Order}
use go_pay.Models.NotifyStatus
use go_pay.World.{World, Env, M, attempt, pure, ◌>>=◌, ◌>>◌, running}
use go_pay.World.Laws.{bind-ok, bind_rule}
use go_pay.OrderService.Status.{update_notify_status, increment_retry_count}
use go_pay.NotifyService.Post.{attempt_of, do_notify_payload, save_notify_log}
use go_pay.NotifyService.Retry.{notify_once, back_off, notify_rounds}

-- The seconds slept after the first `k` failures from round `i` on.
abbrev pub pauses : ℕ → ℕ → List ℕ
pauses i zero = []
pauses i (suc k) = (if ltb i 4 then 2 ^ i ∷ [] else []) ++ pauses (i + 1) k

module _ (env : Env) where
  -- Whether the j-th POST is answered with status 200.
  abbrev pub accepted : ℕ → Bool
  accepted j = (attempt_of (env.http j)).success

  -- `notify_once` sends one POST and answers as it did.
  notify_once-posts :
      (o : Order) (url body : String) (w : World)
      → let (r, w') = notify_once env o url body w in
        (r ≡ ok (accepted w.posts))
        × (w'.posts ≡ w.posts + 1)
        × (w'.slept ≡ w.slept)
        × (w'.alerts ≡ w.alerts)
  unfolding notify_once do_notify_payload save_notify_log increment_retry_count running
  notify_once-posts o url body w = elim (Option-cases (env.fault w.statements)) [
    | inl f ↦ elim (Option-cases (env.fault (w.statements + 1))) [
      | inl g ↦ (ground arith, ground arith, ground arith, ground arith)
      | inr (x, g) ↦ (ground arith, ground arith, ground arith, ground arith)
    ]
    | inr (e, f) ↦ elim (Option-cases (env.fault (w.statements + 1))) [
      | inl g ↦ (ground arith, ground arith, ground arith, ground arith)
      | inr (x, g) ↦ (ground arith, ground arith, ground arith, ground arith)
    ]
  ]

  -- How the rounds may end: with the first POST that is accepted, or with none accepted.
  pub data Ending (n i : ℕ) (w : World) (r : Result Bool) (w' : World) : Type 0 where
    delivered :
        (k : ℕ)
        → k < n
        → r ≡ ok true
        → w'.posts ≡ w.posts + suc k
        → accepted (w.posts + k) ≡ true
        → ((j : ℕ) → j < k → accepted (w.posts + j) ≡ false)
        → w'.slept ≡ w.slept ++ pauses i k
        → w'.alerts ≡ w.alerts
        → Ending n i w r w'
    exhausted :
        r ≡ ok false
        → w'.posts ≡ w.posts + n
        → ((j : ℕ) → j < n → accepted (w.posts + j) ≡ false)
        → w'.slept ≡ w.slept ++ pauses i n
        → w'.alerts ≡ w.alerts
        → Ending n i w r w'

  update-quiet :
      (order_no status : String) (w : World)
      → let (r, w') = attempt (update_notify_status env order_no status) w in
        (w'.posts ≡ w.posts) × (w'.slept ≡ w.slept) × (w'.alerts ≡ w.alerts)
  unfolding update_notify_status running
  update-quiet order_no status w = elim (Option-cases (env.fault w.statements)) [
    | inl f ↦ (ground arith, ground arith, ground arith)
    | inr (e, f) ↦ (ground arith, ground arith, ground arith)
  ]

  back_off-eq :
      (i : ℕ) (w : World)
      → back_off env i w
        ≡ (ok tt, record w { slept = w.slept ++ (if ltb i 4 then 2 ^ i ∷ [] else []) })
  back_off-eq i w = elim (Bool-cases (ltb i 4)) [
    | inl h ↦ rw h refl
    | inr h ↦ rw h (ap (λ l. (ok tt, record w { slept = l })) (sym (append-nil w.slept)))
  ]

  refused_before :
      (k p q : ℕ)
      → accepted p ≡ false
      → q ≡ p + 1
      → ((j : ℕ) → j < k → accepted (q + j) ≡ false)
      → (j : ℕ) → j < suc k
      → accepted (p + j) ≡ false
  refused_before k p q bad e before zero lt = subst (λ m. accepted m ≡ false) (omega arith) bad
  refused_before k p q bad e before (suc j) lt =
      subst (λ m. accepted m ≡ false) (omega (arith, e)) (before j (omega (arith, lt)))

  slept_more :
      (k i : ℕ) (a b c : List ℕ)
      → b ≡ a ++ (if ltb i 4 then 2 ^ i ∷ [] else [])
      → c ≡ b ++ pauses (i + 1) k
      → c ≡ a ++ pauses i (suc k)
  slept_more k i a b c h e =
      e ∙ ap (λ l. l ++ pauses (i + 1) k) h ∙ append_assoc a _ (pauses (i + 1) k)

  -- A failed round, and the rounds after it.
  Ending-suc :
      (n i : ℕ) (w w1 : World) (r : Result Bool) (w' : World)
      → accepted w.posts ≡ false
      → w1.posts ≡ w.posts + 1
      → w1.slept ≡ w.slept ++ (if ltb i 4 then 2 ^ i ∷ [] else [])
      → w1.alerts ≡ w.alerts
      → Ending n (i + 1) w1 r w'
      → Ending (suc n) i w r w'
  Ending-suc n i w w1 r w' bad p s a (delivered k lt e posts good before slept alerts) =
      delivered (suc k) (omega (arith, lt)) e (omega (arith, posts, p))
        (subst (λ m. accepted m ≡ true) (omega (arith, p)) good)
        (refused_before k w.posts w1.posts bad p before)
        (slept_more k i w.slept w1.slept w'.slept s slept) (alerts ∙ a)
  Ending-suc n i w w1 r w' bad p s a (exhausted e posts before slept alerts) =
      exhausted e (omega (arith, posts, p)) (refused_before n w.posts w1.posts bad p before)
        (slept_more n i w.slept w1.slept w'.slept s slept) (alerts ∙ a)

  abbrev Once : World → Result Bool × World → Type 0
  Once w x =
      (x.0 ≡ ok (accepted w.posts))
      × (x.1.posts ≡ w.posts + 1)
      × (x.1.slept ≡ w.slept)
      × (x.1.alerts ≡ w.alerts)

  -- What follows one round.
  abbrev next : ℕ → ℕ → Order → String → String → Bool → M Bool
  next n i o url body success = elim success [
    | true ↦ do
      updated ← attempt (update_notify_status env o.order_no NotifyStatus.notified)
      pure true
    | false ↦ do back_off env i; notify_rounds env n (i + 1) o url body
  ]

  ok_value : {a b : Bool} → ok a ≡ ok b → a ≡ b
  ok_value h = cc

  -- An accepted round ends the loop.
  next-true-Ending :
      (n i : ℕ) (o : Order) (url body : String) (w w1 : World)
      → Once w (ok true, w1)
      → let (r, w') = next n i o url body true w1 in Ending (suc n) i w r w'
  unfolding attempt ◌>>=◌
  next-true-Ending n i o url body w w1 (r, p, s, a) =
      let (p', s', a') = update-quiet o.order_no NotifyStatus.notified w1 in
      delivered 0 (omega arith) refl (omega (arith, p, p'))
        (subst (λ m. accepted m ≡ true) (omega arith) (sym (ok_value r)))
        (λ j lt. absurd (omega (arith, lt))) (s' ∙ s ∙ sym (append-nil w.slept)) (a' ∙ a)

  next-false-Ending :
      (n i : ℕ) (o : Order) (url body : String) (w w1 : World)
      → ((w2 : World)
          → let (r, w') = notify_rounds env n (i + 1) o url body w2 in Ending n (i + 1) w2 r w')
      → Once w (ok false, w1)
      → let (r, w') = next n i o url body false w1 in Ending (suc n) i w r w'
  next-false-Ending n i o url body w w1 later (r, p, s, a) =
      subst (λ x. Ending (suc n) i w x.0 x.1)
        (sym (
          bind-ok (back_off env i) (λ _. notify_rounds env n (i + 1) o url body) w1
            (back_off-eq i w1)))
        (Ending-suc n i w w2 _ _ (sym (ok_value r)) p
          (ap (λ l. l ++ (if ltb i 4 then 2 ^ i ∷ [] else [])) s) a (later w2))
    where
      w2 : World
      w2 = record w1 { slept = w1.slept ++ (if ltb i 4 then 2 ^ i ∷ [] else []) }

  -- From round `i` on, with `n` rounds left, whatever the database does: the rounds end with the
  -- first POST that is answered with status 200, and answer `true`; or `n` POSTs were sent, none
  -- was accepted, and they answer `false`. Between two POSTs the loop sleeps for 2 ^ i seconds
  -- after round `i`, for i up to 3.
  pub notify_rounds-Ending :
      (n i : ℕ) (o : Order) (url body : String) (w : World)
      → let (r, w') = notify_rounds env n i o url body w in Ending n i w r w'
  unfolding notify_rounds
  notify_rounds-Ending zero i o url body w =
      exhausted refl (omega arith) (λ j lt. absurd (omega arith)) (sym (append-nil w.slept)) refl
  notify_rounds-Ending (suc n) i o url body w =
      bind_rule (λ x. Ending (suc n) i w x.0 x.1) (notify_once env o url body) (next n i o url body)
        w
        (λ b w1 e.
          decided b w1 (notify_rounds-Ending n (i + 1) o url body)
            (subst (Once w) e (notify_once-posts o url body w)))
        (λ x w1 e. absurd (no_error x (subst (Once w) e (notify_once-posts o url body w)).0))
    where
      no_error : (x : GoError) → err x ≢ ok (accepted w.posts)
      no_error x h = absurd cc

      decided :
          (b : Bool) (w1 : World)
          → ((w2 : World)
              → let (r, w') = notify_rounds env n (i + 1) o url body w2 in Ending n (i + 1) w2 r w')
          → Once w (ok b, w1)
          → let (r, w') = next n i o url body b w1 in Ending (suc n) i w r w'
      decided true w1 later h = next-true-Ending n i o url body w w1 h
      decided false w1 later h = next-false-Ending n i o url body w w1 later h
