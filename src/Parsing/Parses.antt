-- ===== src/Parsing/Parses.antt =====
-- The contract of the buffer parser: `new` and `parse`, in terms of the reader of the whole text.
use llmsh.Base.{
  some, List, ◌++◌, Bytes, ◌≡◌, sym, ap, ◌∙◌, arith, Eq, get, ok, length-append, append_assoc,
}
use mathlib.Core.Path.{subst, subst₂}
use llmsh.Parsing.{StepResults, Transition, BufferParser, parse}
use llmsh.Parsing.Reference.{identifiers, Reader, Runs, feed}
use llmsh.Parsing.Simulation.{IsConfigured, Sim}
use llmsh.Parsing.Total.{parse-Runs}
use llmsh.Parsing.Chunks.{AreUniform, changes}
use llmsh.Parsing.Streams.{IsClear, IsClear-feed}
use llmsh.Parsing.Cuts.{Runs-append}

module _ {S E1 E2 : Type 0} ⦃e : Eq S⦄ where
  -- A parser between two calls of `parse`: its maps are complete, no identifier is empty or too
  -- long, and its buffer is the end of what a reader holds.
  pub record IsValid (p : BufferParser S E1 E2) : Type 0 where
    pub configured : IsConfigured p
    pub reader : Reader S
    pub sim : Sim p reader

  -- In every state the identifiers are equally long.
  abbrev pub IsUniform : BufferParser S E1 E2 → Type 0
  IsUniform p =
      (s : S) (ts : List (Transition S E1))
      → get p.state_map s ≡ some ts
      → AreUniform (identifiers ts)

  -- `parse` ends on every input with no panic, out of a valid parser into a valid one, and its
  -- results are those of reading the input behind the text that was there.
  pub parse-total :
      (p : BufferParser S E1 E2) (input : Bytes)
      → (v : IsValid p)
      → (results : List (StepResults E1 E2)) × (p' : BufferParser S E1 E2) × (v' : IsValid p')
        × (parse p input ≡ ok (results, p'))
        × Runs p.state_map p.echo_events (feed v.reader input) results v'.reader
  parse-total p input v =
      let a = parse-Runs p v.reader input v.configured v.sim in
      (
        a.results,
        a.p',
        record { configured = a.configured; reader = a.r'; sim = a.sim },
        a.parses,
        a.runs,
      )

  pub IsClear-Sim :
      (p : BufferParser S E1 E2) (r : Reader S) (conf : IsConfigured p)
      → Sim p r
      → IsClear p.state_map p.echo_events conf.nonempty r
  IsClear-Sim p r conf sim =
      subst (IsClear p.state_map p.echo_events conf.nonempty) (sym sim.is_view) (record {
        seen_le = omega (arith, length-append sim.dropped p.input_buffer, sim.seen_le);
        clear = sim.clean;
      })

  -- For a valid parser with identifiers of one length in each state: however an input is cut into two
  -- reads, all calls of `parse` return, the transitions are those of one read, and so is the last state.
  pub parse-append :
      (p : BufferParser S E1 E2) (first second : Bytes)
      → IsValid p
      → IsUniform p
      → (xs ys zs : List (StepResults E1 E2)) × (p1 p2 p3 : BufferParser S E1 E2) × (parse p first
          ≡ ok (xs, p1))
        × (parse p1 second ≡ ok (ys, p2))
        × (parse p (first ++ second) ≡ ok (zs, p3))
        × (changes zs ≡ changes xs ++ changes ys)
        × (p3.state ≡ p2.state)
  parse-append p first second v uniform =
      let r = v.reader in
      let conf = v.configured in
      let a = parse-Runs p r first conf v.sim in
      let b = parse-Runs a.p' a.r' second a.configured a.sim in
      let c = parse-Runs p r (first ++ second) conf v.sim in
      let again =
        subst₂ (λ m ev. Runs m ev (feed a.r' second) b.results b.r') (sym a.same.state_map)
          (sym a.same.echo_events) b.runs in
      let clear =
        IsClear-feed p.state_map p.echo_events conf.nonempty r first (IsClear-Sim p r conf v.sim) in
      let (events, end) =
        Runs-append p.state_map p.echo_events conf.nonempty uniform second a.runs clear again c.runs
          (ap (λ t. record { text = t; seen = r.seen; state = r.state })
            (sym (append_assoc r.text first second))) in
      (
        a.results,
        b.results,
        c.results,
        a.p',
        b.p',
        c.p',
        a.parses,
        b.parses,
        c.parses,
        events,
        sym (ap (λ r. r.state) c.sim.is_view)
            ∙ ap (λ r. r.state) end
            ∙ ap (λ r. r.state) b.sim.is_view,
      )
