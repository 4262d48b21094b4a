-- ===== src/Policy/Cooldown/Spacing.antt =====
-- The cooldown of one policy over a sequence of reservations, in the order in which they hold the
-- lock, against a specification that forgets nothing.
use gloam_macro_commands.Common.{
  ℕ, ◌+◌, ◌≤◌, ◌<◌, ◌≡◌, ◌≢◌, refl, String, Bool, true, false, not, ◌||◌, Option, none, some, List,
  [], ◌∷◌, nat_eq, leb, if◌then◌else◌, arith, all, nat_eq_iff, Bool-cases, inl, inr, ap,
}
use gloam_macro_commands.Error.{is_ok}
use gloam_macro_commands.Policy.Cooldown.{Cooldowns, get, insert, retain, active, reserve}
use gloam_macro_commands.Policy.Cooldown.Laws.{
  Distinct, get-insert, get-retain, insert-Distinct, retain-Distinct,
}

module _ (path : String) (duration : ℕ) where
  -- Which of the requests (a user and the instant that was read for it) are let through.
  pub grants : Cooldowns → List (ℕ × ℕ) → List Bool
  grants map [] = []
  grants map ((user, now) ∷ rest) =
      let (map', result) = reserve path user now (now + duration) map in
      is_ok result ∷ grants map' rest

-- A granted request does not hold back a request of another user, nor one that comes at least
-- `duration` later.
abbrev pub clear : (duration user now : ℕ) → ℕ × ℕ → Bool
clear duration user now (u, t) = not (nat_eq u user) || leb (t + duration) now

-- The specification: a request is let through exactly if every request granted before is clear of
-- it. The history is never pruned.
pub spaced : (duration : ℕ) → List (ℕ × ℕ) → List (ℕ × ℕ) → List Bool
spaced duration granted [] = []
spaced duration granted ((user, now) ∷ rest) =
    let pass = all (clear duration user now) granted in
    pass ∷ spaced duration (if pass then (user, now) ∷ granted else granted) rest

-- The instants do not fall along the list, from `last` on.
abbrev pub Rising : ℕ → List (ℕ × ℕ) → Type 0
Rising last [] = Unit {0}
Rising last ((user, now) ∷ rest) = (last ≤ now) × Rising now rest

abbrev is_over : ℕ → Option ℕ → Bool
is_over now none = true
is_over now (some deadline) = leb deadline now

-- The map and the history give one answer, now and later.
record Agree (duration last : ℕ) (map : Cooldowns) (granted : List (ℕ × ℕ)) : Type 0 where
  distinct : Distinct map
  same :
      (user now : ℕ)
      → last ≤ now
      → is_over now (get user map) ≡ all (clear duration user now) granted

module _ (path : String) (duration : ℕ) where
  is_ok-reserve :
      (user now ready : ℕ) (map : Cooldowns)
      → is_ok (reserve path user now ready map).1 ≡ is_over now (get user map)
  unfolding reserve
  is_ok-reserve user now ready map = ground arith

  reserve_over :
      (user now ready : ℕ) (map : Cooldowns)
      → is_over now (get user map) ≡ true
      → (reserve path user now ready map).0 ≡ retain now (insert user ready map)
  unfolding reserve
  reserve_over user now ready map h = ground arith

  reserve_running :
      (user now ready : ℕ) (map : Cooldowns)
      → is_over now (get user map) ≡ false
      → (reserve path user now ready map).0 ≡ map
  unfolding reserve
  reserve_running user now ready map h = ground arith

  is_over_later :
      (now later : ℕ) (o : Option ℕ) → now ≤ later → is_over now o ≡ true → is_over later o ≡ true
  is_over_later now later none h e = refl
  is_over_later now later (some deadline) h e = ground arith

  is_over-active :
      (now later : ℕ) (o : Option ℕ) → now ≤ later → is_over later (active now o) ≡ is_over later o
  unfolding active
  is_over-active now later none h = refl
  is_over-active now later (some deadline) h = ground arith

  granted_same :
      (user now last other later : ℕ) (map : Cooldowns) (granted : List (ℕ × ℕ))
      → Agree duration last map granted
      → last ≤ now
      → is_over now (get user map) ≡ true
      → now ≤ later
      → is_over later (get other (retain now (insert user (now + duration) map)))
        ≡ all (clear duration other later) ((user, now) ∷ granted)
  granted_same user now last other later map granted a h over le =
      rw
        (
          get-retain other now (insert user (now + duration) map)
              (insert-Distinct user (now + duration) map a.distinct),
          is_over-active now later (get other (insert user (now + duration) map)) le,
          get-insert other user (now + duration) map,
        )
        (ground (
          arith,
          a.same other later,
          nat_eq_iff user other,
          is_over_later now later (get user map) le over,
        ))

  reserve-Agree :
      (user now last : ℕ) (map : Cooldowns) (granted : List (ℕ × ℕ))
      → Agree duration last map granted
      → last ≤ now
      → Agree duration now
          (reserve path user now (now + duration) map).0
          (if all (clear duration user now) granted then (user, now) ∷ granted else granted)
  reserve-Agree user now last map granted a h = elim (Bool-cases (is_over now (get user map))) [
    | inl over ↦
        rw (reserve_over user now (now + duration) map over, ← a.same user now h, over)
          (record {
            distinct = retain-Distinct now _ (insert-Distinct user (now + duration) map a.distinct);
            same = λ other later le. granted_same user now last other later map granted a h over le;
          })
    | inr running ↦
        rw (reserve_running user now (now + duration) map running, ← a.same user now h, running)
          (record {
            distinct = a.distinct;
            same = λ other later le. a.same other later (omega arith);
          })
  ]

  grants-eq-spaced_from :
      (last : ℕ) (map : Cooldowns) (granted requests : List (ℕ × ℕ))
      → Agree duration last map granted
      → Rising last requests
      → grants path duration map requests ≡ spaced duration granted requests
  unfolding grants spaced
  grants-eq-spaced_from last map granted [] a r = refl
  grants-eq-spaced_from last map granted ((user, now) ∷ rest) a (h, r) =
      rw (is_ok-reserve user now (now + duration) map, a.same user now h)
        (ap (◌∷◌ (all (clear duration user now) granted))
          (grants-eq-spaced_from now _ _ rest (reserve-Agree user now last map granted a h) r))

  -- Where the instants do not fall in the order of the reservations, a request is let through
  -- exactly if every earlier granted request of its user is at least the cooldown old: what the
  -- map forgets never matters.
  pub grants-eq-spaced :
      (requests : List (ℕ × ℕ))
      → Rising 0 requests
      → grants path duration [] requests ≡ spaced duration [] requests
  grants-eq-spaced requests r = grants-eq-spaced_from 0 [] [] requests start r
    where
      start : Agree duration 0 [] []
      start = record { distinct = tt; same = λ user now _. unfold get in refl }

  -- The instant is read before the lock is taken. If a request of another user, read after the
  -- first user's deadline, takes the lock in between, it prunes the first user's entry, and a
  -- request whose instant lies before that deadline is let through.
  pub stale_instant :
      (u v t late early : ℕ)
      → u ≢ v
      → t < late
      → early < t + duration
      → t + duration ≤ late
      → grants path duration [] ((u, t) ∷ (v, late) ∷ (u, early) ∷ []) ≡ true ∷ true ∷ true ∷ []
  unfolding grants reserve
  stale_instant u v t late early ne before early_lt late_le = ground arith
