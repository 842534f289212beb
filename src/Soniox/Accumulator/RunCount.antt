-- ===== src/Soniox/Accumulator/RunCount.antt =====
-- src/asr/soniox/accumulator.rs: how many runs `build_open_runs` makes.
use larmindon_core.Base.{
  ◌+◌, ◌≤◌, inl, inr, Option, List, [], ◌∷◌, arith, Bool-cases, length, is_empty,
}
use larmindon_core.Text.{Text, is_blank, opt_text_eq}
use larmindon_core.Soniox.Protocol.{SonioxToken, SonioxResponse, normalized_speaker}
use larmindon_core.Soniox.Accumulator.{Run, Accumulator}
use larmindon_core.Soniox.Accumulator.Volatile.{
  extend_runs, inherit, is_tail_token, tail_runs, retain_runs, pending_runs, build_open_runs,
}

length-extend_runs :
    (rs : List Run) (speaker : Option Text) (t : Text)
    → length (extend_runs rs speaker t) ≤ length rs + 1
unfolding extend_runs
length-extend_runs [] speaker t = omega arith
length-extend_runs (r ∷ []) speaker t = elim (Bool-cases (opt_text_eq r.speaker speaker)) [
  | inl e ↦ rw e (omega arith)
  | inr e ↦ rw e (omega arith)
]
length-extend_runs (r ∷ r' ∷ rs) speaker t = omega (arith, length-extend_runs (r' ∷ rs) speaker t)

length-tail_runs :
    (tokens : List SonioxToken) (speaker : Option Text) (rs : List Run)
    → length (tail_runs tokens speaker rs) ≤ length rs + length tokens
unfolding tail_runs
length-tail_runs [] speaker rs = omega arith
length-tail_runs (token ∷ tokens) speaker rs = elim (Bool-cases (is_tail_token token)) [
  | inl e ↦
      let found = inherit (normalized_speaker token) speaker in
      rw e (
        omega (
          arith,
          length-tail_runs tokens found (extend_runs rs found token.text),
          length-extend_runs rs found token.text,
        ))
  | inr e ↦ rw e (omega (arith, length-tail_runs tokens speaker rs))
]

length-retain_runs : (rs : List Run) → length (retain_runs rs) ≤ length rs
unfolding retain_runs
length-retain_runs [] = omega arith
length-retain_runs (r ∷ rs) = elim (Bool-cases (is_blank r.text)) [
  | inl e ↦ rw e (omega (arith, length-retain_runs rs))
  | inr e ↦ rw e (omega (arith, length-retain_runs rs))
]

length-pending_runs : (a : Accumulator) → length (pending_runs a) ≤ 1
length-pending_runs a = elim (Bool-cases (is_empty a.pending)) [
  | inl e ↦ rw e (omega arith)
  | inr e ↦ rw e (omega arith)
]

pub length-build_open_runs :
    (a : Accumulator) (r : SonioxResponse) → length (build_open_runs a r) ≤ length r.tokens + 1
unfolding build_open_runs
length-build_open_runs a r =
    let runs = tail_runs r.tokens a.pending_speaker (pending_runs a) in
    omega (
      arith,
      length-retain_runs runs,
      length-tail_runs r.tokens a.pending_speaker (pending_runs a),
      length-pending_runs a,
    )
