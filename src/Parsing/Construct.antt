-- ===== src/Parsing/Construct.antt =====
-- What `BufferParser::new` accepts, and that it gives a valid parser.
use mathlib.Core.Path.{subst}
use llmsh.Base.{
  ℕ, ◌<◌, Bool, some, List, [], ◌∷◌, Bytes, ◌≡◌, ◌↔◌, refl, sym, ◌>>=◌, panicked, ◌∙◌, inl, inr,
  arith, Eq, get, HashMap, ok, length, All, ltb, Bool-cases, returned-first, panicked-ne-ok,
  if◌then◌else◌, All-get_elem?,
}
use llmsh.Parsing.{
  Transition, string_id, BufferParser, new, check_transitions, check_max_history_length,
}
use llmsh.Parsing.Leftmost.{IsNonEmpty}
use llmsh.Parsing.Reference.{identifiers}
use llmsh.Parsing.Parses.{IsValid}

module _ {S E1 : Type 0} where
  -- A statement of the transitions of every entry.
  abbrev pub EachEntry :
      (List (Transition S E1) → Type 0) → HashMap S (List (Transition S E1)) → Type 0
  EachEntry P [] = Unit
  EachEntry P ((s, ts) ∷ m) = P ts × EachEntry P m

  abbrev pub AreShort : ℕ → List (Transition S E1) → Type 0
  AreShort h ts = All (λ id. length id < h) (identifiers ts)

  get_cons :
      ⦃e : Eq S⦄ (k s : S) (us : List (Transition S E1)) (m : HashMap S (List (Transition S E1)))
      → get ((k, us) ∷ m) s ≡ (if e.beq k s then some us else get m s)
  unfolding get
  get_cons k s us m = refl

  EachEntry-get :
      ⦃e : Eq S⦄ (P : List (Transition S E1) → Type 0) (m : HashMap S (List (Transition S E1)))
      (s : S) (ts : List (Transition S E1))
      → EachEntry P m
      → get m s ≡ some ts
      → P ts
  EachEntry-get P [] s ts h g = absurd (unfold get in cc)
  EachEntry-get ⦃e⦄ P ((k, us) ∷ m) s ts (h, hs) g = elim (Bool-cases (e.beq k s)) [
    | inl here ↦ let same : us ≡ ts = ground (arith, get_cons k s us m) in subst P same h
    | inr there ↦ EachEntry-get P m s ts hs (ground (arith, get_cons k s us m))
  ]

  check_transitions_cons :
      (h : ℕ) (id : Bytes) (v : Bool) (s : S) (ev : E1) (ts : List (Transition S E1))
      → check_transitions h ((string_id id v, s, ev) ∷ ts)
        ≡ (if ltb (length id) h then check_transitions h ts else panicked)
  unfolding check_transitions
  check_transitions_cons h id v s ev ts = refl

  check_max_cons :
      (h : ℕ) (s : S) (ts : List (Transition S E1)) (m : HashMap S (List (Transition S E1)))
      → check_max_history_length h ((s, ts) ∷ m)
        ≡ (check_transitions h ts >>= λ _. check_max_history_length h m)
  unfolding check_max_history_length
  check_max_cons h s ts m = refl

  -- The assertion holds of all transitions, or it panics.
  check_transitions_iff :
      (h : ℕ) (ts : List (Transition S E1)) → (check_transitions h ts ≡ ok tt) ↔ AreShort h ts
  check_transitions_iff h [] = (λ _. tt, λ _. unfold check_transitions in refl)
  check_transitions_iff h ((string_id id v, s, ev) ∷ ts) =
      let (to, from) = check_transitions_iff h ts in
      elim (Bool-cases (ltb (length id) h)) [
        | inl lt ↦ (
          λ c. (ground arith, to (rw (check_transitions_cons h id v s ev ts, lt) at c)),
          λ a. rw (check_transitions_cons h id v s ev ts, lt) (from a.1),
        )
        | inr ge ↦ (
          λ c. absurd (panicked-ne-ok (rw (check_transitions_cons h id v s ev ts, ge) at c)),
          λ a. absurd (ground arith),
        )
      ]

  check_max_history_length_iff :
      (h : ℕ) (m : HashMap S (List (Transition S E1)))
      → (check_max_history_length h m ≡ ok tt) ↔ EachEntry (AreShort h) m
  check_max_history_length_iff h [] = (λ _. tt, λ _. unfold check_max_history_length in refl)
  check_max_history_length_iff h ((s, ts) ∷ m) =
      let (to, from) = check_max_history_length_iff h m in
      (
        λ c.
            let (_, one, rest) =
              returned-first (check_transitions h ts) _ (sym (check_max_cons h s ts m) ∙ c) in
            ((check_transitions_iff h ts).0 one, to rest),
        λ a. rw (check_max_cons h s ts m, (check_transitions_iff h ts).1 a.0) (from a.1),
      )

module _ {S E1 E2 : Type 0} ⦃e : Eq S⦄ where
  -- The maps know every state, and no identifier is empty.
  pub record AreComplete (state_map : HashMap S (List (Transition S E1)))
      (echo_events : HashMap S E2) : Type 0 where
    pub has_transitions : (s : S) → (ts : List (Transition S E1)) × (get state_map s ≡ some ts)
    pub has_echo : (s : S) → (ev : E2) × (get echo_events s ≡ some ev)
    pub nonempty : EachEntry (λ ts. All IsNonEmpty (identifiers ts)) state_map

  abbrev fresh : S → HashMap S (List (Transition S E1)) → HashMap S E2 → BufferParser S E1 E2
  fresh state state_map echo_events = record {
    input_buffer = [];
    parsed_length = 0;
    state = state;
    state_map = state_map;
    echo_events = echo_events;
    max_history_length = 128;
  }

  new_eq :
      (state : S) (state_map : HashMap S (List (Transition S E1))) (echo_events : HashMap S E2)
      → new state state_map echo_events
        ≡ (check_max_history_length 128 state_map >>= λ _. ok (fresh state state_map echo_events))
  unfolding new
  new_eq state state_map echo_events = refl

  -- `new` succeeds exactly when every identifier has fewer than 128 bytes.
  pub new_iff :
      (state : S) (state_map : HashMap S (List (Transition S E1))) (echo_events : HashMap S E2)
      → ((p : BufferParser S E1 E2) × (new state state_map echo_events ≡ ok p))
        ↔ EachEntry (AreShort 128) state_map
  new_iff state state_map echo_events = (
    λ s.
        let (_, one, _) =
          returned-first (check_max_history_length 128 state_map) _
            (sym (new_eq state state_map echo_events) ∙ s.1) in
        (check_max_history_length_iff 128 state_map).0 one,
    λ a. (
      fresh state state_map echo_events,
      rw (new_eq state state_map echo_events, (check_max_history_length_iff 128 state_map).1 a),
    ),
  )

  -- The parser that `new` returns, with nothing read.
  pub new-fresh :
      (state : S) (state_map : HashMap S (List (Transition S E1))) (echo_events : HashMap S E2)
      → AreComplete state_map echo_events
      → EachEntry (AreShort 128) state_map
      → (p : BufferParser S E1 E2) × (new state state_map echo_events ≡ ok p)
        × (v : IsValid p) × (v.reader.text ≡ [])
        × (p.state ≡ state)
        × (p.input_buffer ≡ [])
        × (p.state_map ≡ state_map)
        × (p.echo_events ≡ echo_events)
  new-fresh state state_map echo_events complete short = (
    fresh state state_map echo_events,
    rw (new_eq state state_map echo_events, (check_max_history_length_iff 128 state_map).1 short),
    record {
      configured = record {
        has_transitions = complete.has_transitions;
        has_echo = complete.has_echo;
        nonempty = λ s ts g.
            EachEntry-get (λ ts. All IsNonEmpty (identifiers ts)) state_map s ts complete.nonempty
              g;
        short = λ s ts g. EachEntry-get (AreShort 128) state_map s ts short g;
      };
      reader = record { text = []; seen = 0; state = state };
      sim = record {
        dropped = [];
        is_view = refl;
        seen_le = omega arith;
        history = inl refl;
        clean = λ ts g k id listed j le at.
            let some_ids =
              EachEntry-get (λ ts. All IsNonEmpty (identifiers ts)) state_map state ts
                complete.nonempty g in
            let pos = All-get_elem? IsNonEmpty (identifiers ts) k some_ids listed in omega arith;
      };
    },
    refl,
    refl,
    refl,
    refl,
    refl,
  )

  -- Over maps that know every state, with identifiers of 1 to 127 bytes, `new` returns a valid parser in
  -- the given state, with these maps and nothing in its buffer.
  pub new-IsValid :
      (state : S) (state_map : HashMap S (List (Transition S E1))) (echo_events : HashMap S E2)
      → AreComplete state_map echo_events
      → EachEntry (AreShort 128) state_map
      → (p : BufferParser S E1 E2) × (new state state_map echo_events ≡ ok p)
        × IsValid p
        × (p.state ≡ state)
        × (p.input_buffer ≡ [])
        × (p.state_map ≡ state_map)
        × (p.echo_events ≡ echo_events)
  new-IsValid state state_map echo_events complete short =
      let (p, made, v, _, at, empty, maps, events) =
        new-fresh state state_map echo_events complete short in
      (p, made, v, at, empty, maps, events)
