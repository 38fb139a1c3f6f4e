-- ===== src/Parsing/Together.antt =====
-- The buffer parser and the reader of the whole text go together, step by step and for whole inputs.
use mathlib.Core.List.{append_assoc}
use llmsh.Base.{
  ℕ, ◌+◌, ◌-◌, ◌≤◌, ◌<◌, Bool, Option, none, some, List, [], ◌++◌, map, Bytes, ◌≡◌, refl, sym, ap,
  ◌∙◌, ◌>>=◌, ◌⊎◌, inl, inr, arith, Eq, get, ok, length, get_elem?, take, drop, All, All-get_elem?,
  shift, length-drop, length-take, length-append, take-append-drop, drop-append_add, dec_lt,
  Option-cases,
}
use llmsh.Parsing.{
  state_change, echo, string_id, Transition, BufferParser, find_smallest_present, take_transition,
  on_best, step, end_of,
}
use llmsh.Parsing.Search.{At-bounds}
use llmsh.Parsing.Smallest.{find_smallest_present-shift}
use llmsh.Parsing.Leftmost.{IsLeftmost, found_in, IsNonEmpty, pick-IsLeftmost, pick-NoMatch}
use llmsh.Parsing.Reference.{identifiers, Reader, matched, missed, display}
use llmsh.Parsing.Shown.{shown_lem}
use llmsh.Parsing.Simulation.{searches, find_matches_lem, IsConfigured, Sim, view, found-searches}
use llmsh.Parsing.Steps.{
  get_elem?-identifiers, searched, StepsTogether, step_unread, take_transition_lem, kept,
  echo_rest_lem,
}

module _ {S E1 E2 : Type 0} ⦃e : Eq S⦄ (p : BufferParser S E1 E2) (d : Bytes)
    (ts : List (Transition S E1)) (mapped : get p.state_map p.state ≡ some ts)
    (unread : p.parsed_length < length p.input_buffer) (conf : IsConfigured p) where
  nonempty : All IsNonEmpty (identifiers ts)
  nonempty = conf.nonempty p.state ts mapped

  abbrev b : Bytes
  b = p.input_buffer

  abbrev n : ℕ
  n = p.parsed_length

  abbrev moved : List (Option ℕ)
  moved = map (λ o. shift o (length d)) (searches b n (identifiers ts))

  step-on_best :
      step p
      ≡ on_best p ts
          (searches b n (identifiers ts))
          (find_smallest_present (searches b n (identifiers ts)))
  step-on_best =
      step_unread p ts unread mapped
      ∙ ap (λ o. o >>= λ ms. on_best p ts ms (find_smallest_present ms))
          (find_matches_lem b n ts (omega arith) nonempty)

  module _ (same : found_in (d ++ b) (identifiers ts) ≡ moved) where
    picks :
        find_smallest_present (searches b n (identifiers ts))
        ≡ find_smallest_present (found_in (d ++ b) (identifiers ts))
    picks =
        sym (find_smallest_present-shift (searches b n (identifiers ts)) (length d))
        ∙ ap find_smallest_present (sym same)

    on_match :
        (k m : ℕ) (id : Bytes) (v : Bool) (s : S) (ev : E1)
        → find_smallest_present (found_in (d ++ b) (identifiers ts)) ≡ some k
        → get_elem? (searches b n (identifiers ts)) k ≡ some (some m)
        → get_elem? ts k ≡ some (string_id id v, s, ev)
        → step p ≡ take_transition p m (string_id id v, s, ev)
    on_match k m id v s ev picked got stands =
        step-on_best
        ∙ ap (on_best p ts (searches b n (identifiers ts))) (picks ∙ picked)
        ∙ rw (got, stands) refl

    matched_at :
        (k i m : ℕ) (v : Bool) (s : S) (ev : E1)
        → i ≡ length d + m
        → (leftmost : IsLeftmost (identifiers ts) (d ++ b) k i)
        → find_smallest_present (found_in (d ++ b) (identifiers ts)) ≡ some k
        → get_elem? (searches b n (identifiers ts)) k ≡ some (some m)
        → get_elem? ts k ≡ some (string_id leftmost.id v, s, ev)
        → StepsTogether p (view d p)
    matched_at k i m v s ev at leftmost picked got stands =
        let id = leftmost.id in
        let pos : 0 < length id =
          All-get_elem? IsNonEmpty (identifiers ts) k nonempty leftmost.listed in
        let bound = At-bounds id i (d ++ b) pos leftmost.at in
        let fits : m + length id ≤ length b = omega (arith, length-append d b) in
        let end : i + length id ≡ length d + (m + length id) = omega arith in
        record {
          result = state_change ev (display (d ++ b) (length d + n) i (end_of v i id));
          p' = record p { input_buffer = drop (m + length id) b; parsed_length = 0; state = s };
          r' = record { text = drop (i + length id) (d ++ b); seen = 0; state = s };
          steps =
              on_match k m id v s ev picked got stands
              ∙ take_transition_lem p m id v s ev
                  (shown_lem d b n m v id fits
                    ∙ ap (λ t. ok (display (d ++ b) (length d + n) t (end_of v t id))) (sym at))
                  fits;
          reads =
              matched ts k i id v s ev (omega (arith, length-append d b)) mapped stands leftmost
                refl refl;
          sim = record {
            dropped = [];
            is_view =
                ap (λ t. record { text = t; seen = 0; state = s })
                  (ap (λ t. drop t (d ++ b)) end ∙ drop-append_add d b (m + length id));
            seen_le = omega arith;
            history = inl refl;
            clean = λ ts' h k' id' listed j le at'.
                let pos' =
                  All-get_elem? IsNonEmpty (identifiers ts') k' (conf.nonempty s ts' h) listed in
                omega arith;
          };
          same = record { state_map = refl; echo_events = refl; max_history_length = refl };
          progress = inr (omega (arith, length-drop (m + length id) b));
        }

    matched_together :
        (k : ℕ)
        → find_smallest_present (found_in (d ++ b) (identifiers ts)) ≡ some k
        → StepsTogether p (view d p)
    matched_together k picked =
        let (i, got, leftmost) = pick-IsLeftmost (d ++ b) (identifiers ts) nonempty picked in
        let (m, got', moves) =
          searched (length d) (searches b n (identifiers ts)) k
            (sym (ap (λ os. get_elem? os k) same) ∙ got) in
        let (v, s, ev, stands) = get_elem?-identifiers ts k leftmost.listed in
        matched_at k i m v s ev (omega arith) leftmost picked got' stands

    -- What is kept is all of the buffer, or as much of it as the history may hold.
    kept_history :
        (length d ≡ 0) ⊎ (p.max_history_length ≤ n)
        → let m = length b - p.max_history_length in
          (length (d ++ take m b) ≡ 0) ⊎ (p.max_history_length ≤ length (drop m b))
    kept_history h =
        let m : ℕ = length b - p.max_history_length in
        elim (dec_lt (length b) p.max_history_length) [
          | yes lt ↦ inl (omega (arith, length-append d (take m b), length-take m b, h))
          | no ge ↦ inr (omega (arith, length-drop m b))
        ]

    abbrev cut : ℕ
    cut = length b - p.max_history_length

    text_kept : d ++ b ≡ (d ++ take cut b) ++ kept p
    unfolding kept
    text_kept =
        ap (λ t. d ++ t) (sym (take-append-drop cut b))
        ∙ sym (append_assoc d (take cut b) (drop cut b))

    missed_together :
        find_smallest_present (found_in (d ++ b) (identifiers ts)) ≡ none
        → (ev : E2) → get p.echo_events p.state ≡ some ev
        → (length d ≡ 0) ⊎ (p.max_history_length ≤ n)
        → StepsTogether p (view d p)
    missed_together picked ev has history = record {
      result = echo ev (drop (length d + n) (d ++ b));
      p' = record p { input_buffer = kept p; parsed_length = length (kept p) };
      r' = record { text = d ++ b; seen = length (d ++ b); state = p.state };
      steps =
          step-on_best
          ∙ ap (on_best p ts (searches b n (identifiers ts))) (picks ∙ picked)
          ∙ echo_rest_lem p (omega arith) has
          ∙ ap
              (λ t. ok (
                some (echo ev t),
                record p { input_buffer = kept p; parsed_length = length (kept p) },
              ))
              (sym (drop-append_add d b n));
      reads =
          missed ts ev (omega (arith, length-append d b)) mapped
            (pick-NoMatch (d ++ b) (identifiers ts) nonempty picked) has refl refl;
      sim = record {
        dropped = d ++ take cut b;
        is_view =
            ap (λ t. record { text = t; seen = length t; state = p.state }) text_kept
            ∙ ap (λ k. record { text = (d ++ take cut b) ++ kept p; seen = k; state = p.state })
                (length-append (d ++ take cut b) (kept p));
        seen_le = omega arith;
        history = unfold kept in kept_history history;
        clean = λ ts' h k id listed j le at.
            let same_ts : ts' ≡ ts = cc in
            pick-NoMatch (d ++ b) (identifiers ts) nonempty picked k id
              (ap (λ t. get_elem? (identifiers t) k) (sym same_ts) ∙ listed) j
              (ap (λ t. take (length id) (drop j t)) text_kept ∙ at);
      };
      same = record { state_map = refl; echo_events = refl; max_history_length = refl };
      progress = inl refl;
    }

module _ {S E1 E2 : Type 0} ⦃e : Eq S⦄ where
  -- With something unread, a step succeeds and gives the reader's result.
  pub step-Reads :
      (p : BufferParser S E1 E2) (r : Reader S)
      → IsConfigured p
      → Sim p r
      → p.parsed_length < length p.input_buffer
      → StepsTogether p r
  step-Reads p r conf sim unread =
      let d = sim.dropped in
      let (ts, mapped) = conf.has_transitions p.state in
      let (ev, has) = conf.has_echo p.state in
      let same =
        found-searches p d (identifiers ts) sim.seen_le sim.history (conf.short p.state ts mapped)
          (sim.clean ts mapped) in
      rw sim.is_view
        (elim (Option-cases
          (find_smallest_present (found_in (d ++ p.input_buffer) (identifiers ts)))) [
            | inl nowhere ↦
                missed_together p d ts mapped unread conf same nowhere ev has sim.history
            | inr (k, picked) ↦ matched_together p d ts mapped unread conf same k picked
          ])
