-- ===== src/Macros/Stream/Reading.antt =====
-- The argument loop of the macros ends, and accepts comma-separated arguments with an optional
-- comma at the end.
use gloam_macro_commands.Common.{
  ℕ, zero, suc, ◌≤◌, ◌<◌, true, false, ◌≡◌, refl, ◌↔◌, ◌⊎◌, inl, inr, ap, some, List, [], ◌∷◌,
  arith, is_some, Bool-cases,
}
use gloam_macro_commands.Macros.Syntax.{Result, ok, err, >>=-eq-ok, Result-cases}
use gloam_macro_commands.Macros.Stream.{
  ParseStream, Round, returned, more, after_comma, after_argument, parse_argument, parse_value,
  round, parse_arguments, add_all,
}

pub Round-cases :
    {S St : Type 0} (r : Round S St)
    → ((x : Result St) × (r ≡ returned x)) ⊎ ((s : S) × (st : St) × (r ≡ more s st))
Round-cases (returned x) = inl (x, refl)
Round-cases (more s st) = inr (s, st, refl)

pub parse_value-advances :
    {S V A : Type 0} (size : S → ℕ) (r : Result (V × S)) (make : V → Result A) (s : S) (a : A)
    (t : S)
    → ((v : V) (u : S) → r ≡ ok (v, u) → size u ≤ size s)
    → parse_value r make ≡ ok (a, t)
    → size t ≤ size s
unfolding parse_value
parse_value-advances size r make s a t h e =
    let ((v, u), here, rest) = >>=-eq-ok r _ e in
    let (b, made, same) = >>=-eq-ok (make v) _ rest in ground (arith, h v u here)

-- What a parser answers, as a relation.
abbrev pub Answers : {S A : Type 0} → (S → Result (A × S)) → S → A → S → Type 0
Answers read s a t = read s ≡ ok (a, t)

module _ {S A : Type 0} (stream : ParseStream S) (Reads : S → A → S → Type 0) where
  -- The stream holds these arguments, separated by commas.
  pub data Holds : S → List A → Type 0 where
    end : (s : S) → stream.is_empty s ≡ true → Holds s []
    last :
        (s : S) (a : A) (t : S)
        → stream.is_empty s ≡ false
        → Reads s a t
        → stream.is_empty t ≡ true
        → Holds s (a ∷ [])
    next :
        (s : S) (a : A) (t u : S) (rest : List A)
        → stream.is_empty s ≡ false
        → Reads s a t
        → stream.is_empty t ≡ false
        → stream.parse_comma t ≡ ok u
        → Holds u rest
        → Holds s (a ∷ rest)

pub Holds-imp :
    {S A : Type 0} (stream : ParseStream S) (Reads Tells : S → A → S → Type 0)
    → ((s : S) (a : A) (t : S) → Reads s a t → Tells s a t)
    → (s : S) (given : List A) → Holds stream Reads s given
    → Holds stream Tells s given
Holds-imp stream Reads Tells h s given (end _ closed) = end s closed
Holds-imp stream Reads Tells h s given (last _ a t open_s here closed) =
    last s a t open_s (h s a t here) closed
Holds-imp stream Reads Tells h s given (next _ a t u rest open_s here open_t comma later) =
    next s a t u rest open_s (h s a t here) open_t comma
      (Holds-imp stream Reads Tells h u rest later)

module _ {S A St : Type 0} (stream : ParseStream S) (read : S → Result (A × S))
    (add : St → A → Result St) where
  after_argument-more :
      (x : Result (St × S)) (u : S) (st : St)
      → after_argument stream x ≡ more u st
      → (t : S) × (x ≡ ok (st, t)) × (stream.is_empty t ≡ false) × (stream.parse_comma t ≡ ok u)
  unfolding after_argument after_comma
  after_argument-more (err message) u st e = cc
  after_argument-more (ok (st', t)) u st e = elim (Bool-cases (stream.is_empty t)) [
    | inl done ↦ absurd (ground arith)
    | inr left ↦ elim (Result-cases (stream.parse_comma t)) [
      | inl (u', comma) ↦ (t, ground arith, left, ground arith)
      | inr (m, comma) ↦ absurd (ground arith)
    ]
  ]

  after_argument-ok :
      (x : Result (St × S)) (r : St)
      → after_argument stream x ≡ returned (ok r)
      → (t : S) × (x ≡ ok (r, t)) × (stream.is_empty t ≡ true)
  unfolding after_argument after_comma
  after_argument-ok (err message) r e = cc
  after_argument-ok (ok (st', t)) r e = elim (Bool-cases (stream.is_empty t)) [
    | inl done ↦ (t, ground arith, done)
    | inr left ↦ elim (Result-cases (stream.parse_comma t)) [
      | inl (u', comma) ↦ absurd (ground arith)
      | inr (m, comma) ↦ absurd (ground arith)
    ]
  ]

  -- What is known where an argument was read and stored.
  stored :
      (s : S) (st st' : St) (t : S)
      → parse_argument stream read add s st ≡ ok (st', t)
      → (a : A) × (read s ≡ ok (a, t)) × (add st a ≡ ok st')
  stored s st st' t e =
      let ((a, t'), here, rest) = >>=-eq-ok (read s) _ e in
      let (st'', added, same) = >>=-eq-ok (add st a) _ rest in (a, ground arith, ground arith)

  -- What is known where a round goes on.
  round-more :
      (s : S) (st : St) (u : S) (st' : St)
      → round stream read add s st ≡ more u st'
      → (a : A) × (t : S) × (stream.is_empty s ≡ false)
        × (read s ≡ ok (a, t))
        × (add st a ≡ ok st')
        × (stream.is_empty t ≡ false)
        × (stream.parse_comma t ≡ ok u)
  unfolding round
  round-more s st u st' e = elim (Bool-cases (stream.is_empty s)) [
    | inl done ↦ absurd (ground arith)
    | inr left ↦
        let (t, x, open_t, comma) = after_argument-more _ u st' (ground arith) in
        let (a, here, added) = stored s st st' t x in (a, t, left, here, added, open_t, comma)
  ]

  round-ok :
      (s : S) (st r : St)
      → round stream read add s st ≡ returned (ok r)
      → ((stream.is_empty s ≡ true) × (r ≡ st))
        ⊎ ((a : A) × (t : S) × (stream.is_empty s ≡ false)
            × (read s ≡ ok (a, t))
            × (add st a ≡ ok r)
            × (stream.is_empty t ≡ true))
  unfolding round
  round-ok s st r e = elim (Bool-cases (stream.is_empty s)) [
    | inl done ↦ inl (done, ground arith)
    | inr left ↦
        let (t, x, closed) = after_argument-ok _ r (ground arith) in
        let (a, here, added) = stored s st r t x in inr (a, t, left, here, added, closed)
  ]

  -- What the stream holds, where the loop returns.
  pub parse_arguments-Holds :
      (fuel : ℕ) (s : S) (st r : St)
      → parse_arguments stream read add fuel s st ≡ some (ok r)
      → (given : List A) × Holds stream (Answers read) s given × (add_all add st given ≡ ok r)
  unfolding parse_arguments add_all
  parse_arguments-Holds zero s st r e = cc
  parse_arguments-Holds (suc fuel) s st r e = elim (Round-cases (round stream read add s st)) [
    | inl (x, done) ↦ elim (round-ok s st r (ground arith)) [
      | inl (closed, same) ↦ ([], end s closed, ground arith)
      | inr (a, t, open_s, here, added, closed) ↦
          (a ∷ [], last s a t open_s here closed, rw added refl)
    ]
    | inr (u, st', goes) ↦
        let (a, t, open_s, here, added, open_t, comma) = round-more s st u st' goes in
        let (given, held, all) = parse_arguments-Holds fuel u st' r (ground arith) in
        (a ∷ given, next s a t u given open_s here open_t comma held, rw added all)
  ]

  -- The loop's rounds, from what the stream holds.
  complete :
      (size : S → ℕ)
      → ((s : S) (a : A) (t : S) → read s ≡ ok (a, t) → size t < size s)
      → ((s t : S) → stream.parse_comma s ≡ ok t → size t ≤ size s)
      → (fuel : ℕ) (s : S) (st r : St) (given : List A) → size s < fuel
      → Holds stream (Answers read) s given
      → add_all add st given ≡ ok r
      → parse_arguments stream read add fuel s st ≡ some (ok r)
  unfolding parse_arguments add_all round after_argument after_comma
  complete size reads commas zero s st r given enough h e = absurd (omega (arith, enough))
  complete size reads commas (suc fuel) s st r given enough (end _ closed) e =
      rw (parse_arguments, closed) (ap some e)
  complete size reads commas (suc fuel) s st r given enough (last _ a t open_s here closed) e =
      let (st', added, same) = >>=-eq-ok (add st a) _ e in
      rw (parse_arguments, open_s, here, added, closed) (ap some same)
  complete size reads commas (suc fuel) s st r given enough
        (next _ a t u rest open_s here open_t comma h) e =
      let (st', added, all) = >>=-eq-ok (add st a) _ e in
      rw (parse_arguments, open_s, here, added, open_t, comma)
        (complete size reads commas fuel u st' r rest
          (omega (arith, enough, reads s a t here, commas t u comma)) h all)

  -- The loop returns: the fuel that the stream's size gives is not used up.
  pub parse_arguments-returns :
      (size : S → ℕ)
      → ((s : S) (a : A) (t : S) → read s ≡ ok (a, t) → size t < size s)
      → ((s t : S) → stream.parse_comma s ≡ ok t → size t ≤ size s)
      → (fuel : ℕ) (s : S) (st : St) → size s < fuel
      → is_some (parse_arguments stream read add fuel s st) ≡ true
  unfolding parse_arguments
  parse_arguments-returns size reads commas zero s st enough = absurd (omega (arith, enough))
  parse_arguments-returns size reads commas (suc fuel) s st enough =
      elim (Round-cases (round stream read add s st)) [
        | inl (x, done) ↦ rw (parse_arguments, is_some, done) refl
        | inr (u, st', goes) ↦
            let (a, t, open_s, here, added, open_t, comma) = round-more s st u st' goes in
            rw (parse_arguments, goes)
              (parse_arguments-returns size reads commas fuel u st'
                (omega (arith, enough, reads s a t here, commas t u comma)))
      ]

  -- The loop returns exactly what storing the arguments that the stream holds gives.
  pub parse_arguments_iff :
      (size : S → ℕ)
      → ((s : S) (a : A) (t : S) → read s ≡ ok (a, t) → size t < size s)
      → ((s t : S) → stream.parse_comma s ≡ ok t → size t ≤ size s)
      → (fuel : ℕ) (s : S) (st r : St) → size s < fuel
      → (parse_arguments stream read add fuel s st ≡ some (ok r))
        ↔ ((given : List A) × Holds stream (Answers read) s given × (add_all add st given ≡ ok r))
  parse_arguments_iff size reads commas fuel s st r enough = (
    parse_arguments-Holds fuel s st r,
    λ (given, h, e). complete size reads commas fuel s st r given enough h e,
  )
