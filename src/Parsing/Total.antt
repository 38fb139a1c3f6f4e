-- ===== src/Parsing/Total.antt =====
-- `parse` on an input: it ends without a panic, and its results are those of the reader.
use llmsh.Base.{
  ℕ, zero, suc, ◌+◌, ◌<◌, true, none, some, List, [], ◌∷◌, ◌++◌, Bytes, ◌≡◌, refl, sym, ap, ◌∙◌,
  ◌⊎◌, inl, inr, arith, Eq, ok, length, length-append, take, drop, append-nil, append_assoc, ◌==◌,
  dec_lt,
}
use mathlib.Core.Path.{subst₂, subst₃}
use llmsh.Parsing.{StepResults, BufferParser, step, buffer, parse_loop, parse}
use llmsh.Parsing.Search.{At-append}
use llmsh.Parsing.Reference.{Reader, Runs, done, more, feed}
use llmsh.Parsing.Simulation.{AreConfigured, IsConfigured, Sim}
use llmsh.Parsing.Steps.{SameMaps, StepsTogether}
use llmsh.Parsing.Together.{step-Reads}

module _ {S E1 E2 : Type 0} ⦃e : Eq S⦄ where
  -- The whole call: its results, the parser and the reader after it, and that nothing is left unread.
  pub record LoopsTogether (fuel : ℕ) (p : BufferParser S E1 E2) (r : Reader S)
      (ret : List (StepResults E1 E2)) : Type 0 where
    pub results : List (StepResults E1 E2)
    pub p' : BufferParser S E1 E2
    pub r' : Reader S
    pub loops : parse_loop fuel p ret ≡ ok (ret ++ results, p')
    pub runs : Runs p.state_map p.echo_events r results r'
    pub sim : Sim p' r'
    pub read : p'.parsed_length ≡ length p'.input_buffer
    pub same : SameMaps p p'

  IsConfigured-same : (p q : BufferParser S E1 E2) → SameMaps p q → IsConfigured p → IsConfigured q
  IsConfigured-same p q same conf =
      subst₃ (λ m ev h. AreConfigured m ev h) same.state_map same.echo_events
        same.max_history_length conf

  step_read :
      (p : BufferParser S E1 E2) → p.parsed_length ≡ length p.input_buffer → step p ≡ ok (none, p)
  unfolding step
  step_read p h =
      let read : (length p.input_buffer == p.parsed_length) ≡ true = ground arith in rw read

  parse_loop_read :
      (fuel : ℕ) (p : BufferParser S E1 E2) (ret : List (StepResults E1 E2))
      → step p ≡ ok (none, p)
      → parse_loop (suc fuel) p ret ≡ ok (ret, p)
  unfolding parse_loop
  parse_loop_read fuel p ret h = rw h

  parse_loop_more :
      (fuel : ℕ) (p p' : BufferParser S E1 E2) (x : StepResults E1 E2)
      (ret : List (StepResults E1 E2))
      → step p ≡ ok (some x, p')
      → parse_loop (suc fuel) p ret ≡ parse_loop fuel p' (ret ++ x ∷ [])
  unfolding parse_loop
  parse_loop_more fuel p p' x ret h = rw h

  loop_read :
      (fuel : ℕ) (p : BufferParser S E1 E2) (r : Reader S) (ret : List (StepResults E1 E2))
      → Sim p r
      → p.parsed_length ≡ length p.input_buffer
      → LoopsTogether (suc fuel) p r ret
  loop_read fuel p r ret sim read = record {
    results = [];
    p' = p;
    r' = r;
    loops =
        parse_loop_read fuel p ret (step_read p read) ∙ ap (λ l. ok (l, p)) (sym (append-nil ret));
    runs = done (rw sim.is_view (omega (arith, length-append sim.dropped p.input_buffer)));
    sim = sim;
    read = read;
    same = record { state_map = refl; echo_events = refl; max_history_length = refl };
  }

  loop_more :
      (fuel : ℕ) (p : BufferParser S E1 E2) (r : Reader S) (ret : List (StepResults E1 E2))
      (first : StepsTogether p r)
      → LoopsTogether fuel first.p' first.r' (ret ++ first.result ∷ [])
      → LoopsTogether (suc fuel) p r ret
  loop_more fuel p r ret first rest = record {
    results = first.result ∷ rest.results;
    p' = rest.p';
    r' = rest.r';
    loops =
        parse_loop_more fuel p first.p' first.result ret first.steps
        ∙ rest.loops
        ∙ ap (λ l. ok (l, rest.p')) (append_assoc ret (first.result ∷ []) rest.results);
    runs = more first.reads (
        subst₂ (λ m ev. Runs m ev first.r' rest.results rest.r') (sym first.same.state_map)
          (sym first.same.echo_events) rest.runs);
    sim = rest.sim;
    read = rest.read;
    same = record {
      state_map = first.same.state_map ∙ rest.same.state_map;
      echo_events = first.same.echo_events ∙ rest.same.echo_events;
      max_history_length = first.same.max_history_length ∙ rest.same.max_history_length;
    };
  }

  loop-Runs :
      (fuel : ℕ) (p : BufferParser S E1 E2) (r : Reader S) (ret : List (StepResults E1 E2))
      → IsConfigured p
      → Sim p r
      → (p.parsed_length ≡ length p.input_buffer) ⊎ (length p.input_buffer < fuel)
      → LoopsTogether (suc fuel) p r ret
  loop-Runs fuel p r ret conf sim (inl read) = loop_read fuel p r ret sim read
  loop-Runs zero p r ret conf sim (inr lt) = absurd (omega arith)
  loop-Runs (suc fuel) p r ret conf sim (inr lt) =
      elim (dec_lt p.parsed_length (length p.input_buffer)) [
        | yes unread ↦
            let first = step-Reads p r conf sim unread in
            loop_more (suc fuel) p r ret first (
              loop-Runs fuel first.p' first.r' (ret ++ first.result ∷ [])
                (IsConfigured-same p first.p' first.same conf) first.sim (enough first.progress))
        | no rest ↦ loop_read (suc fuel) p r ret sim (omega (arith, sim.seen_le))
      ]
    where
      enough : {a b : ℕ} → (a ≡ b) ⊎ (b < length p.input_buffer) → (a ≡ b) ⊎ (b < fuel)
      enough (inl h) = inl h
      enough (inr h) = inr (omega arith)

  -- New output in the buffer is new output in the text.
  Sim-feed :
      (p : BufferParser S E1 E2) (r : Reader S) (input : Bytes)
      → IsConfigured p
      → Sim p r
      → Sim (buffer p input) (feed r input)
  unfolding buffer
  Sim-feed p r input conf sim =
      let d = sim.dropped in
      let b = p.input_buffer in
      record {
        dropped = d;
        is_view =
            ap (λ q. feed q input) sim.is_view
            ∙ ap (λ t. record { text = t; seen = length d + p.parsed_length; state = p.state })
                (append_assoc d b input);
        seen_le = omega (arith, length-append b input, sim.seen_le);
        history = sim.history;
        clean = λ ts h k id listed j le at. sim.clean ts h k id listed j le (
            At-append id j (d ++ b) input (omega (arith, length-append d b, sim.seen_le))
              (ap (λ t. take (length id) (drop j t)) (append_assoc d b input) ∙ at));
      }

  parse_eq :
      (p : BufferParser S E1 E2) (input : Bytes)
      → parse p input
        ≡ parse_loop (suc (suc (length (buffer p input).input_buffer))) (buffer p input) []
  unfolding parse
  parse_eq p input =
      ap (λ fuel. parse_loop fuel (buffer p input) []) (fuel_eq (length (p.input_buffer ++ input)))
    where
      fuel_eq : (n : ℕ) → n + 2 ≡ suc (suc n)
      fuel_eq n = omega arith

  -- What a call of `parse` does, in terms of the reader `r` of the whole text.
  pub record ParsesAs (p : BufferParser S E1 E2) (r : Reader S) (input : Bytes) : Type 0 where
    pub results : List (StepResults E1 E2)
    pub p' : BufferParser S E1 E2
    pub r' : Reader S
    pub parses : parse p input ≡ ok (results, p')
    pub runs : Runs p.state_map p.echo_events (feed r input) results r'
    pub sim : Sim p' r'
    pub configured : IsConfigured p'
    pub same : SameMaps p p'

  -- `parse` ends with no panic on every input.
  pub parse-Runs :
      (p : BufferParser S E1 E2) (r : Reader S) (input : Bytes)
      → IsConfigured p
      → Sim p r
      → ParsesAs p r input
  unfolding buffer
  parse-Runs p r input conf sim =
      let q = buffer p input in
      let rest =
        loop-Runs (suc (length q.input_buffer)) q (feed r input) [] conf
          (Sim-feed p r input conf sim) (inr (omega arith)) in
      record {
        results = rest.results;
        p' = rest.p';
        r' = rest.r';
        parses = parse_eq p input ∙ rest.loops;
        runs = rest.runs;
        sim = rest.sim;
        configured = IsConfigured-same q rest.p' rest.same conf;
        same = record {
          state_map = rest.same.state_map;
          echo_events = rest.same.echo_events;
          max_history_length = rest.same.max_history_length;
        };
      }
