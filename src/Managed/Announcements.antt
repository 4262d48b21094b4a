-- ===== src/Managed/Announcements.antt =====
-- crates/gloam-commands/src/framework.rs, `drive_shards`: what a step of the loop does to its flag and
-- to the synchronizations made.
use gloam_macro_commands.Common.{
  ℕ, ◌+◌, ◌≤◌, ◌≡◌, refl, sym, ap, ◌∙◌, arith, true, false, Option, some, List, [], ◌∷◌, ◌++◌,
  length, is_empty, not, str_eq, if◌then◌else◌,
}
use mathlib.Core.List.{append-nil}
use gloam_macro_commands.Error.{Error, Result, ok, err}
use gloam_macro_commands.Exec.{Exec, after}
use gloam_macro_commands.Discord.{
  ready, interaction_create, other_event, GatewayEvent, dispatch, other_gateway_event,
}
use gloam_macro_commands.Registration.{Registration, global, guild, unmanaged}
use gloam_macro_commands.Managed.{Round, Managed, ready_application_id, ready_id}

-- What the loop reads off an event.
abbrev pub announced : Result (Option ℕ) → List ℕ
announced (ok (some application_id)) = application_id ∷ []
announced _ = []

-- The application of a READY event: of that name, and with a payload that decodes as one.
abbrev pub announced_event : GatewayEvent → List ℕ
announced_event (dispatch name (ok (ready application_id))) =
    if str_eq name "READY" then application_id ∷ [] else []
announced_event (dispatch name (ok (interaction_create i))) = []
announced_event (dispatch name (ok other_event)) = []
announced_event (dispatch name (err e)) = []
announced_event other_gateway_event = []

pub announced_lem :
    (event : GatewayEvent) → announced (ready_application_id event) ≡ announced_event event
unfolding ready_application_id ready_id
announced_lem (dispatch name (ok (ready application_id))) = ground arith
announced_lem (dispatch name (ok (interaction_create i))) = ground arith
announced_lem (dispatch name (ok other_event)) = ground arith
announced_lem (dispatch name (err e)) = ground arith
announced_lem other_gateway_event = refl

abbrev pub announced_by : Round → List ℕ
announced_by round = elim round.event [ err e ↦ [] | ok event ↦ announced_event event ]

-- Where registration is left to others, nothing is published.
abbrev pub published : Registration → List ℕ → List ℕ
published unmanaged ids = []
published global ids = ids
published (guild id) ids = ids

abbrev pub or_else : List ℕ → List ℕ → List ℕ
or_else [] ids = ids
or_else (id ∷ ids) _ = id ∷ ids

-- That of the first READY event of a list of rounds.
abbrev pub first_ready : List Round → List ℕ
first_ready [] = []
first_ready (round ∷ rounds) = or_else (announced_by round) (first_ready rounds)

pub or_else-nil : (ids : List ℕ) → or_else ids [] ≡ ids
or_else-nil [] = refl
or_else-nil (id ∷ ids) = refl

-- What a step leaves of the loop's flag and of the synchronizations made.
abbrev pub Keeps : {V S : Type 0} → Managed V S → Managed V S → Type 0
Keeps m m' = (m'.synchronized ≡ m.synchronized) × (m'.synchronizations ≡ m.synchronizations)

module _ {V S : Type 0} where
  -- A step that announces `ids`: a loop that was synchronized stays as it is; another synchronizes
  -- at most once, and if the step succeeds, for exactly `ids`.
  pub record Announces (ids : List ℕ) (m : Managed V S) (x : Managed V S × Result (Unit {0}))
      : Type 0 where
    pub settled : m.synchronized ≡ true → Keeps m x.0
    pub bounded :
        m.synchronized ≡ false → length x.0.synchronizations ≤ length m.synchronizations + 1
    pub exact :
        m.synchronized ≡ false
        → x.1 ≡ ok tt
        → (x.0.synchronizations ≡ m.synchronizations ++ ids)
          × (x.0.synchronized ≡ not (is_empty ids))

  pub refuses : (ids : List ℕ) (m : Managed V S) (e : Error) → Announces ids m (m, err e)
  refuses ids m e = record {
    settled = λ _. (refl, refl);
    bounded = λ _. omega arith;
    exact = λ _ h. cc;
  }

  pub passes : (m : Managed V S) → Announces [] m (m, ok tt)
  passes m = record {
    settled = λ _. (refl, refl);
    bounded = λ _. omega arith;
    exact = λ f _. (sym (append-nil m.synchronizations), f);
  }

  pub done : (ids : List ℕ) (m : Managed V S) → m.synchronized ≡ true → Announces ids m (m, ok tt)
  done ids m h = record {
    settled = λ _. (refl, refl);
    bounded = λ f. absurd (ground arith);
    exact = λ f _. absurd (ground arith);
  }

  -- A step that announces `ids` and a step that announces `later` if it succeeds.
  pub then-Announces :
      (ids later : List ℕ) (m : Managed V S) (x : Managed V S × Result (Unit {0}))
      (k : Exec (Managed V S) (Unit {0}))
      → Announces ids m x
      → Announces later x.0 (k x.0)
      → Announces (or_else ids later) m (after x (λ _. k))
  then-Announces ids later m (x, err e) k a b = record {
    settled = a.settled;
    bounded = a.bounded;
    exact = λ _ h. cc;
  }
  then-Announces [] later m (x, ok tt) k a b = record {
    settled = λ h.
        let (flag, made) = a.settled h in
        let (flag', made') = b.settled (flag ∙ h) in (flag' ∙ flag, made' ∙ made);
    bounded = λ f.
        let (made, flag) = a.exact f refl in
        let same : x.synchronizations ≡ m.synchronizations = made ∙ append-nil m.synchronizations in
        let more = b.bounded flag in omega (arith, ap (λ l. length l) same);
    exact = λ f h.
        let (made, flag) = a.exact f refl in
        let (made', flag') = b.exact flag h in
        let same : x.synchronizations ≡ m.synchronizations = made ∙ append-nil m.synchronizations in
        (made' ∙ ap (λ l. l ++ later) same, flag');
  }
  then-Announces (id ∷ ids) later m (x, ok tt) k a b = record {
    settled = λ h.
        let (flag, made) = a.settled h in
        let (flag', made') = b.settled (flag ∙ h) in (flag' ∙ flag, made' ∙ made);
    bounded = λ f.
        let (made, flag) = a.exact f refl in
        let (flag', made') = b.settled flag in
        let first = a.bounded f in omega (arith, ap (λ l. length l) made');
    exact = λ f h.
        let (made, flag) = a.exact f refl in
        let (flag', made') = b.settled flag in (made' ∙ made, flag' ∙ flag);
  }

  pub keeps-Announces :
      (m : Managed V S) (x : Managed V S × Result (Unit {0})) → Keeps m x.0 → Announces [] m x
  keeps-Announces m x k = record {
    settled = λ _. k;
    bounded = λ _. let e = k.1 in omega (arith, ap (λ l. length l) e);
    exact = λ f _. (k.1 ∙ sym (append-nil m.synchronizations), k.0 ∙ f);
  }
