-- ===== src/Soniox/Client/Retry.antt =====
-- src/asr/soniox/client.rs: how long the reconnect loop waits, how often it tries and how it ends.
use larmindon_core.Base.{
  ℕ, ◌+◌, ◌-◌, ◌*◌, ◌^◌, ◌⊎◌, inl, inr, subst, append-nil, suc, ◌<◌, ltb→lt, Bool-cases, ◌≤◌, ◌≡◌,
  refl, ap, ◌∙◌, min, Bool, true, false, List, [], ◌∷◌, ◌++◌, arith, length, ltb, if◌then◌else◌,
  if_false, if_true,
}
use native.Mathlib.Numerals.{unary_clauses}
use native.Mathlib.Nat.{pow-le-pow_right, one-le-pow}
use larmindon_core.Text.{Text}
use larmindon_core.Soniox.Protocol.{SonioxResponse}
use larmindon_core.Soniox.Client.{
  Inbound, response, responses, Round, reconnecting, finished, fatal_end, outcome_finished,
  outcome_shutdown, outcome_fatal, retry, BackoffOutcome, continues, backoff_shutdown,
  backoff_finish, backoff, backoff_start, backoff_cap, lost_message, max_reconnect_attempts,
  next_attempt, session,
}

-- Connections that fail without a response, each for its reason, and a wait that is not interrupted.
abbrev pub failures : List Text → List Round
failures [] = []
failures (reason ∷ reasons) = ([], retry reason false, continues) ∷ failures reasons

abbrev pub all_reconnecting : List Text → List Inbound
all_reconnecting [] = []
all_reconnecting (reason ∷ reasons) = reconnecting reason ∷ all_reconnecting reasons

-- From a count of `attempt`, as many failures in a row as make five are each announced as a
-- reconnection; the next failure is the fatal end with its own reason, whatever else would come.
pub session-gives_up :
    (reasons : List Text) (last : Text) (w : BackoffOutcome) (rest : List Round) (attempt : ℕ)
    → attempt + length reasons ≡ max_reconnect_attempts
    → session (failures reasons ++ (([], retry last false, w) ∷ rest)) attempt
      ≡ all_reconnecting reasons ++ (fatal_end (lost_message last) ∷ [])
unfolding session
session-gives_up [] last w rest attempt h = if_true (ltb 5 (attempt + 1)) _ _ (ground (arith, h))
session-gives_up (reason ∷ reasons) last w rest attempt h =
    if_false (ltb 5 (attempt + 1)) _ _ (ground (arith, h))
    ∙ ap (λ ms. reconnecting reason ∷ ms)
        (session-gives_up reasons last w rest (attempt + 1) (omega (arith, h)))

doubled : (m : ℕ) → 2 ^ suc m ≡ 2 * 2 ^ m
doubled m = simp unary_clauses (omega arith)

capped : (p q : ℕ) → q ≡ 2 * p → min (500 * q) 15000 ≡ min (2 * min (500 * p) 15000) 15000
capped p q e = omega (arith, e)

-- `m` is the exponent before it is bounded.
next_wait :
    (m : ℕ) → min (500 * 2 ^ min (m + 1) 16) 15000 ≡ min (2 * min (500 * 2 ^ min m 16) 15000) 15000
next_wait m = elim (Bool-cases (ltb m 16)) [
  | inl e ↦
      let low : m < 16 = ltb→lt m 16 e in
      let below : min (m + 1) 16 ≡ suc (min m 16) = omega (arith, low) in
      capped (2 ^ min m 16) (2 ^ min (m + 1) 16) (ap (λ j. 2 ^ j) below ∙ doubled (min m 16))
  | inr e ↦
      let high : 16 ≤ m = ground (arith, e) in
      let this : min m 16 ≡ 16 = omega (arith, high) in
      let next : min (m + 1) 16 ≡ 16 = omega (arith, high) in rw (this, next) refl
]

-- The wait before the first attempt is 500 ms, and each wait after it is twice the one before, up to
-- 15 s. So no wait is shorter than the one before it, and each is from 500 ms to 15 s.
pub backoff-doubles :
    (k : ℕ)
    → (backoff 1 ≡ backoff_start)
      × (backoff (k + 2) ≡ min (2 * backoff (k + 1)) backoff_cap)
      × (backoff (k + 1) ≤ backoff (k + 2))
      × (backoff_start ≤ backoff (k + 1))
      × (backoff (k + 1) ≤ backoff_cap)
unfolding backoff
backoff-doubles k =
    let grows =
      pow-le-pow_right {n = 2} (omega arith) {i = min (k + 1 - 1) 16} {j = min (k + 2 - 1) 16}
        (omega arith) in
    let positive = one-le-pow (min (k + 1 - 1) 16) 2 (omega arith) in
    let next : k + 2 - 1 ≡ k + 1 = omega arith in
    let this : k ≡ k + 1 - 1 = omega arith in
    (
      refl,
      ap (λ j. min (500 * 2 ^ min j 16) 15000) next
          ∙ next_wait k
          ∙ ap (λ j. min (2 * min (500 * 2 ^ min j 16) 15000) 15000) this,
      omega (arith, grows),
      omega (arith, positive),
      omega arith,
    )

-- A response or a reconnection.
abbrev pub GoesOn : Inbound → Type 0
GoesOn m = ((r : SonioxResponse) × (m ≡ response r)) ⊎ ((reason : Text) × (m ≡ reconnecting reason))

-- A last word: what ends the session.
abbrev pub IsLast : List Inbound → Type 0
IsLast [] = Unit
IsLast (m ∷ []) = Unit
IsLast (m ∷ n ∷ ms) = GoesOn m × IsLast (n ∷ ms)

reconnecting-IsLast :
    (reason : Text) (ms : List Inbound) → IsLast ms → IsLast (reconnecting reason ∷ ms)
reconnecting-IsLast reason [] h = tt
reconnecting-IsLast reason (m ∷ ms) h = (inr (reason, refl), h)

responses-IsLast :
    (rs : List SonioxResponse) (ms : List Inbound) → IsLast ms → IsLast (responses rs ++ ms)
responses-IsLast [] ms h = h
responses-IsLast (r ∷ []) [] h = tt
responses-IsLast (r ∷ []) (m ∷ ms) h = (inl (r, refl), h)
responses-IsLast (r ∷ r' ∷ rs) ms h = (inl (r, refl), responses-IsLast (r' ∷ rs) ms h)

if-IsLast :
    (b : Bool) (xs ys : List Inbound) → IsLast xs → IsLast ys → IsLast (if b then xs else ys)
if-IsLast true xs ys last_x last_y = last_x
if-IsLast false xs ys last_x last_y = last_y

-- Of all that a session and its connections send, only the last message can be other than a response
-- or a reconnection: nothing follows an end.
pub session-ends_once : (rounds : List Round) (attempt : ℕ) → IsLast (session rounds attempt)
unfolding session
session-ends_once [] attempt = tt
session-ends_once ((rs, outcome_finished, w) ∷ rounds) attempt =
    responses-IsLast rs (finished ∷ []) tt
session-ends_once ((rs, outcome_shutdown, w) ∷ rounds) attempt =
    subst IsLast (append-nil (responses rs)) (responses-IsLast rs [] tt)
session-ends_once ((rs, outcome_fatal message, w) ∷ rounds) attempt =
    responses-IsLast rs (fatal_end message ∷ []) tt
session-ends_once ((rs, retry reason progressed, continues) ∷ rounds) attempt =
    responses-IsLast rs _ (
      if-IsLast (ltb max_reconnect_attempts (next_attempt progressed attempt))
        (fatal_end (lost_message reason) ∷ [])
        (reconnecting reason ∷ session rounds (next_attempt progressed attempt)) tt
        (reconnecting-IsLast reason (session rounds (next_attempt progressed attempt))
          (session-ends_once rounds (next_attempt progressed attempt))))
session-ends_once ((rs, retry reason progressed, backoff_shutdown) ∷ rounds) attempt =
    responses-IsLast rs _ (
      if-IsLast (ltb max_reconnect_attempts (next_attempt progressed attempt))
        (fatal_end (lost_message reason) ∷ []) (reconnecting reason ∷ []) tt tt)
session-ends_once ((rs, retry reason progressed, backoff_finish) ∷ rounds) attempt =
    responses-IsLast rs _ (
      if-IsLast (ltb max_reconnect_attempts (next_attempt progressed attempt))
        (fatal_end (lost_message reason) ∷ []) (reconnecting reason ∷ finished ∷ []) tt
        (reconnecting-IsLast reason (finished ∷ []) tt))
