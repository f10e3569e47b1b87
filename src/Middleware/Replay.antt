-- ===== src/Middleware/Replay.antt =====
-- Runs of the nonce checker that `SignatureAuth` of pkg/middleware/signature.go shares between
-- requests: arrivals, each with its readings of the clock, and ticks of `cleanupExpired`.
use native.Mathlib.Decide.{dec_lt}
use mathlib.Core.Path.{subst}
use go_pay.Prelude.{
  refl, sym, ap, ◌∙◌, ℕ, ◌+◌, ◌^◌, ◌≤◌, ◌<◌, ◌≡◌, String, Bool, true, false, ◌&&◌, ◌||◌, Option,
  none, some, List, [], ◌∷◌, ◌==◌, leb, arith, eq_refl, eq_iff, Bool-cases, Option-cases, ◌⊎◌, inl,
  inr,
}
use go_pay.Prelude.Int.{pos}
use go_pay.Errors.{GoError}
use go_pay.Models.{App}
use go_pay.Security.Nonces.{Cache, seen_at, check_nonce, cleanup_expired}
use go_pay.Middleware.{Gate, abort, next}
use go_pay.Middleware.Signature.{SignedRequest, signature_auth, parse_int}
use go_pay.Middleware.Window.{is_expired_pos}

pub record Arrival : Type 0 where
  pub fault : Option GoError
  pub apps : List App
  pub now : ℕ
  pub checked_at : ℕ
  pub request : SignedRequest

pub data Event : Type 0 where
  arrive : Arrival → Event
  sweep : ℕ → Event

-- The clock does not go back, and stays an int64.
abbrev pub InOrder : ℕ → List Event → Type 0
InOrder clock [] = clock < 2 ^ 63
InOrder clock (arrive a ∷ es) = (clock ≤ a.now) × (a.now ≤ a.checked_at) × InOrder a.checked_at es
InOrder clock (sweep now ∷ es) = (clock ≤ now) × InOrder now es

abbrev as_number : Bool → ℕ
as_number true = 1
as_number false = 0

abbrev pub is_next : {A : Type 0} → Gate A → Bool
is_next (abort r) = false
is_next (next a) = true

-- An entry for the nonce that is no older than `n`.
held : String → ℕ → Cache → Bool
held nonce n [] = false
held nonce n ((m, t) ∷ cache) = ((m == nonce) && leb n t) || held nonce n cache

held-seen_at :
    (nonce : String) (n : ℕ) (cache : Cache)
    → held nonce n cache ≡ true
    → (seen_at nonce cache ≡ none)
    → ⊥
unfolding held
held-seen_at nonce n [] h e = ground arith
held-seen_at nonce n ((m, t) ∷ cache) h e = ground (arith, held-seen_at nonce n cache)

held-cleanup_expired :
    (nonce : String) (n now : ℕ) (cache : Cache)
    → held nonce n cache ≡ true
    → now ≤ n + 300
    → held nonce n (cleanup_expired now cache) ≡ true
unfolding held
held-cleanup_expired nonce n now [] h k = h
held-cleanup_expired nonce n now ((m, t) ∷ cache) h k =
    ground (arith, held-cleanup_expired nonce n now cache)

held-check_nonce :
    (nonce : String) (n now : ℕ) (nonce' : String) (cache : Cache)
    → held nonce n cache ≡ true
    → held nonce n (check_nonce now nonce' cache).1 ≡ true
unfolding held check_nonce
held-check_nonce nonce n now nonce' cache h = ground arith

fresh-held :
    (nonce : String) (n now : ℕ) (cache : Cache)
    → n ≤ now
    → (check_nonce now nonce cache).0 ≡ true
    → held nonce n (check_nonce now nonce cache).1 ≡ true
unfolding held check_nonce
fresh-held nonce n now cache h k = ground (arith, eq_refl nonce)

module _ (hmac : String → String → String) where
  -- The checker after an event.
  abbrev pub after : Option Cache → Event → Option Cache
  after checker (arrive a) =
      (signature_auth hmac a.fault a.apps a.now a.checked_at checker a.request).1
  after checker (sweep now) = elim checker [
    | none ↦ none
    | some cache ↦ some (cleanup_expired now cache)
  ]

  abbrev pub lets_pass : Option Cache → Arrival → Bool
  lets_pass checker a =
      is_next (signature_auth hmac a.fault a.apps a.now a.checked_at checker a.request).0

  -- Whether the request has the nonce and the timestamp, and passes.
  counts : String → String → Option Cache → Arrival → Bool
  counts nonce text checker a =
      (a.request.nonce == nonce) && (a.request.timestamp == text) && lets_pass checker a

  -- How often requests with the nonce and the timestamp reach the handlers.
  pub passes : String → String → Option Cache → List Event → ℕ
  passes nonce text checker [] = 0
  passes nonce text checker (arrive a ∷ es) =
      as_number (counts nonce text checker a) + passes nonce text (after checker (arrive a)) es
  passes nonce text checker (sweep now ∷ es) = passes nonce text (after checker (sweep now)) es

  Held : String → ℕ → Option Cache → Type 0
  Held nonce n none = ⊥
  Held nonce n (some cache) = held nonce n cache ≡ true

  Held-arrive :
      (nonce : String) (n : ℕ) (checker : Option Cache) (a : Arrival)
      → Held nonce n checker
      → Held nonce n (after checker (arrive a))
  unfolding Held signature_auth
  Held-arrive nonce n none a h = absurd h
  Held-arrive nonce n (some cache) a h =
      ground (arith, held-check_nonce nonce n a.checked_at a.request.nonce cache)

  Held-sweep :
      (nonce : String) (n : ℕ) (checker : Option Cache) (now : ℕ)
      → Held nonce n checker
      → now ≤ n + 300
      → Held nonce n (after checker (sweep now))
  unfolding Held
  Held-sweep nonce n none now h k = absurd h
  Held-sweep nonce n (some cache) now h k = held-cleanup_expired nonce n now cache h k

  Held-pass :
      (n : ℕ) (cache : Cache) (a : Arrival)
      → n ≤ a.checked_at
      → lets_pass (some cache) a ≡ true
      → Held a.request.nonce n (after (some cache) (arrive a))
  unfolding Held signature_auth
  Held-pass n cache a h p = ground (arith, fresh-held a.request.nonce n a.checked_at cache)

  -- A nonce that is held does not pass again.
  lets_pass-Held :
      (n : ℕ) (checker : Option Cache) (a : Arrival)
      → Held a.request.nonce n checker
      → lets_pass checker a ≡ false
  unfolding Held signature_auth check_nonce
  lets_pass-Held n none a h = absurd h
  lets_pass-Held n (some cache) a h = ground (arith, held-seen_at a.request.nonce n cache)

  -- A request that passes has a timestamp near the clock.
  late-lets_pass :
      (n : ℕ) (checker : Option Cache) (a : Arrival)
      → parse_int a.request.timestamp ≡ some (pos n)
      → n + 300 < a.now
      → a.now < 2 ^ 63
      → lets_pass checker a ≡ false
  unfolding signature_auth
  late-lets_pass n checker a h k l = ground (arith, is_expired_pos a.now n l (omega arith))

  -- The clock of a run in order stays an int64.
  InOrder-bound : (clock : ℕ) (es : List Event) → InOrder clock es → clock < 2 ^ 63
  InOrder-bound clock [] h = h
  InOrder-bound clock (arrive a ∷ es) h = omega (arith, h.0, h.1, InOrder-bound a.checked_at es h.2)
  InOrder-bound clock (sweep now ∷ es) h = omega (arith, h.0, InOrder-bound now es h.1)

  -- The nonce is held, or a timestamp `n` is past.
  abbrev Blocked : String → ℕ → ℕ → Option Cache → Type 0
  Blocked nonce n clock checker = Held nonce n checker ⊎ (n + 300 < clock)

  Blocked-later :
      (nonce : String) (n clock now : ℕ) (checker : Option Cache)
      → clock ≤ now
      → Blocked nonce n clock checker
      → Blocked nonce n now checker
  Blocked-later nonce n clock now checker le (inl h) = inl h
  Blocked-later nonce n clock now checker le (inr late) = inr (omega arith)

  Blocked-arrive :
      (nonce : String) (n : ℕ) (checker : Option Cache) (a : Arrival)
      → Blocked nonce n a.now checker
      → a.now ≤ a.checked_at
      → Blocked nonce n a.checked_at (after checker (arrive a))
  Blocked-arrive nonce n checker a (inl h) le = inl (Held-arrive nonce n checker a h)
  Blocked-arrive nonce n checker a (inr late) le = inr (omega arith)

  Blocked-sweep :
      (nonce : String) (n : ℕ) (checker : Option Cache) (now : ℕ)
      → Blocked nonce n now checker
      → Blocked nonce n now (after checker (sweep now))
  Blocked-sweep nonce n checker now (inl h) = elim (dec_lt (n + 300) now) [
    | yes late ↦ inr late
    | no in_time ↦ inl (Held-sweep nonce n checker now h (omega arith))
  ]
  Blocked-sweep nonce n checker now (inr late) = inr late

  counts-Blocked :
      (nonce text : String) (n : ℕ)
      → parse_int text ≡ some (pos n)
      → (checker : Option Cache) (a : Arrival) → a.now < 2 ^ 63
      → Blocked nonce n a.now checker
      → counts nonce text checker a ≡ false
  unfolding counts
  counts-Blocked nonce text n parsed checker a bound (inl h) =
      elim (Bool-cases (a.request.nonce == nonce)) [
        | inl e ↦
            let same = sym ((eq_iff a.request.nonce nonce).0 e) in
            ground (arith, lets_pass-Held n checker a (subst (λ s. Held s n checker) same h))
        | inr e ↦ ground (arith, e)
      ]
  counts-Blocked nonce text n parsed checker a bound (inr late) =
      elim (Bool-cases (a.request.timestamp == text)) [
        | inl e ↦
            let same = (eq_iff a.request.timestamp text).0 e in
            ground (arith, late-lets_pass n checker a (ap parse_int same ∙ parsed) late bound)
        | inr e ↦ ground (arith, e)
      ]

  -- From a blocked state nothing passes.
  passes-Blocked :
      (nonce text : String) (n : ℕ)
      → parse_int text ≡ some (pos n)
      → (clock : ℕ) (checker : Option Cache) (es : List Event) → InOrder clock es
      → Blocked nonce n clock checker
      → passes nonce text checker es ≡ 0
  unfolding passes
  passes-Blocked nonce text n parsed clock checker [] order b = refl
  passes-Blocked nonce text n parsed clock checker (arrive a ∷ es) order b =
      let b' = Blocked-later nonce n clock a.now checker order.0 b in
      let bound : a.now < 2 ^ 63 = omega (arith, InOrder-bound a.checked_at es order.2, order.1) in
      omega (
        arith,
        ap as_number (counts-Blocked nonce text n parsed checker a bound b'),
        passes-Blocked nonce text n parsed a.checked_at (after checker (arrive a)) es order.2
            (Blocked-arrive nonce n checker a b' order.1),
      )
  passes-Blocked nonce text n parsed clock checker (sweep now ∷ es) order b =
      passes-Blocked nonce text n parsed now (after checker (sweep now)) es order.1
        (Blocked-sweep nonce n checker now (Blocked-later nonce n clock now checker order.0 b))

  -- The checker stays one that is not nil.
  after-arrive :
      (cache : Cache) (a : Arrival)
      → (cache' : Cache) × (after (some cache) (arrive a) ≡ some cache')
  unfolding signature_auth
  after-arrive cache a = elim (Option-cases (after (some cache) (arrive a))) [
    | inl e ↦ absurd (ground (arith, e))
    | inr (cache', e) ↦ (cache', e)
  ]

  counts_sound :
      (nonce text : String) (checker : Option Cache) (a : Arrival)
      → counts nonce text checker a ≡ true
      → (a.request.nonce ≡ nonce) × (lets_pass checker a ≡ true)
  unfolding counts
  counts_sound nonce text checker a h = (ground (arith, eq_iff a.request.nonce nonce), ground arith)

  Held-counts :
      (nonce text : String) (n : ℕ) (cache : Cache) (a : Arrival)
      → n ≤ a.checked_at
      → counts nonce text (some cache) a ≡ true
      → Held nonce n (after (some cache) (arrive a))
  Held-counts nonce text n cache a h k =
      let (same, passed) = counts_sound nonce text (some cache) a k in
      subst (λ s. Held s n (after (some cache) (arrive a))) same (Held-pass n cache a h passed)

  -- Where the timestamp of a request is not ahead of the clock, requests with its nonce and its
  -- timestamp pass at most once, whatever else arrives and however often the nonces are swept.
  pub no_replay :
      (nonce text : String) (n : ℕ)
      → parse_int text ≡ some (pos n)
      → (clock : ℕ) (cache : Cache) (es : List Event) → n ≤ clock
      → InOrder clock es
      → passes nonce text (some cache) es ≤ 1
  unfolding passes
  no_replay nonce text n parsed clock cache [] h order = omega arith
  no_replay nonce text n parsed clock cache (sweep now ∷ es) h order =
      no_replay nonce text n parsed now (cleanup_expired now cache) es (omega (arith, order.0))
        order.1
  no_replay nonce text n parsed clock cache (arrive a ∷ es) h order =
      let late : n ≤ a.checked_at = omega (arith, order.0, order.1) in
      let rest = after (some cache) (arrive a) in
      elim (Bool-cases (counts nonce text (some cache) a)) [
        | inl e ↦ omega (
          arith,
          passes-Blocked nonce text n parsed a.checked_at rest es order.2
              (inl (Held-counts nonce text n cache a late e)),
          ap as_number e,
        )
        | inr k ↦
            let (cache', same) = after-arrive cache a in
            omega (
              arith,
              ap as_number k,
              ap (λ c. passes nonce text c es) same,
              no_replay nonce text n parsed a.checked_at cache' es late order.2,
            )
      ]
