-- ===== src/Shell/Colons.antt =====
-- llmsh/src/shell.rs, `_handle_undetermined`: the typed bytes that open a dialogue.
use mathlib.Core.Path.{subst}
use llmsh.Base.{
  ℕ, [], ◌∷◌, true, false, Bytes, ◌≡◌, inl, inr, refl, sym, ap, Bool-cases, arith, ◌==◌, ==_iff,
  get_elem?, zero, suc, some,
}
use llmsh.Shell.Input.{ShellInputState, undetermined, contains_colon}
use llmsh.Shell.Flags.{some-injective}

abbrev pub HasColon : Bytes → Type 0
HasColon bytes = (i : ℕ) × (get_elem? bytes i ≡ some b':')

-- Bytes that are typed in this state open a dialogue with hermitd: at a new prompt, with a colon.
abbrev pub Opens : Bytes → ShellInputState → Type 0
Opens bytes undetermined = HasColon bytes
Opens bytes _ = ⊥

contains_colon-HasColon : (bytes : Bytes) → contains_colon bytes ≡ true → HasColon bytes
unfolding contains_colon
contains_colon-HasColon [] e = cc
contains_colon-HasColon (c ∷ cs) e = elim (Bool-cases (c == b':')) [
  | inl same ↦ (0, ap some (omega (arith, (==_iff c b':').0 same)))
  | inr other ↦ let (i, at) = contains_colon-HasColon cs (rw other at e) in (suc i, at)
]

pub HasColon-contains_colon :
    (bytes : Bytes) (i : ℕ) → get_elem? bytes i ≡ some b':' → contains_colon bytes ≡ true
unfolding contains_colon
HasColon-contains_colon [] i h = cc
HasColon-contains_colon (c ∷ cs) zero h =
    let e : (c == b':') ≡ true = (==_iff c b':').1 (some-injective h) in rw e refl
HasColon-contains_colon (c ∷ cs) (suc i) h = elim (Bool-cases (c == b':')) [
  | inl same ↦ rw same refl
  | inr other ↦ rw other (HasColon-contains_colon cs i h)
]

-- With a colon, and without one.
pub Opens-colon :
    (bytes : Bytes) (s : ShellInputState)
    → s ≡ undetermined
    → contains_colon bytes ≡ true
    → Opens bytes s
Opens-colon bytes s is e = subst (Opens bytes) (sym is) (contains_colon-HasColon bytes e)

pub Opens-none :
    (bytes : Bytes) (s : ShellInputState)
    → s ≡ undetermined
    → contains_colon bytes ≡ false
    → ¬ Opens bytes s
Opens-none bytes s is e opens =
    let (i, at) = subst (Opens bytes) is opens in let e' = HasColon-contains_colon bytes i at in cc

-- In another state.
pub Opens-not :
    (bytes : Bytes) (s : ShellInputState) {s' : ShellInputState}
    → s ≡ s'
    → ¬ Opens bytes s'
    → ¬ Opens bytes s
Opens-not bytes s is never opens = never (subst (Opens bytes) is opens)
