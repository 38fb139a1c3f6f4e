-- ===== src/Shell/Launched.antt =====
-- shell.rs: the proxy of the shell that `get_shell` chose, with markers made of random UUIDs.
use llmsh.Base.{
  ℕ, ◌+◌, List, [], ◌∷◌, ◌++◌, Option, some, none, ok-injective, bytes_eq, Bool, true, false, ◌||◌,
  Bytes, codes, ok, ◌==◌, leb, length, All, All-get_elem?, Bool-cases, inl, inr, ◌≡◌, refl, sym, ap,
  ◌∙◌, arith, get,
}
use mathlib.Core.Path.{subst}
use llmsh.Text.{Text, within, into_bytes, encode_char}
use llmsh.Effects.{bind-ok}
use llmsh.Outside.{ShellOutputType, Outside, Platform, History, new_uuid}
use llmsh.Parsing.{StepResults, Transition, parse}
use llmsh.Parsing.Reference.{identifiers}
use llmsh.Parsing.Chunks.{AreUniform, changes}
use llmsh.Parsing.Parses.{IsUniform}
use llmsh.Parsing.Pieces.{joined, parse_pieces, parse_pieces-joined}
use llmsh.Shell.Bash.{
  BashState, idle, cmd_input, BashParser, bash_state_eq, make_string_id, shell_prompt_input_start,
  input_end, output_end, transitions,
}
use llmsh.Shell.Flags.{some-injective}
use llmsh.Shell.Start.{
  Bash, new_bash, get_shell, named_shell, shell_of, file_name, input_marker, output_marker,
  create_bash_proxy,
}
use llmsh.Shell.Proxy.{ShellProxy}
use llmsh.Shell.Output.{IsBash, IsCoupled}
use llmsh.Shell.Sessions.{
  create_proxy, create_proxy-IsCoupled, AreMarkers, Handled, Handled-IsCoupled,
}

-- A hexadecimal digit or a hyphen.
abbrev pub is_uuid_char : ℕ → Bool
is_uuid_char c = within b'0' b'9' c || within b'a' b'f' c || c == b'-'

-- The hyphenated form of a UUID.
abbrev pub IsUuid : Text → Type 0
IsUuid text = (length text ≡ 36) × All (λ c. is_uuid_char c ≡ true) text

is_uuid_char-leb : (c : ℕ) → is_uuid_char c ≡ true → leb c 0x7F ≡ true
is_uuid_char-leb c h = ground arith

is_uuid_char-newline : (c : ℕ) → is_uuid_char c ≡ true → (c == 10) ≡ false
is_uuid_char-newline c h = ground arith

into_bytes-IsUuid :
    (u : Text) → All (λ c. is_uuid_char c ≡ true) u → into_bytes (u ++ codes "\n") ≡ u ++ codes "\n"
unfolding into_bytes encode_char
into_bytes-IsUuid [] h = refl
into_bytes-IsUuid (c ∷ u) (h, hs) =
    let small : leb c 0x7F ≡ true = is_uuid_char-leb c h in
    rw small (ap (λ t. c ∷ t) (into_bytes-IsUuid u hs))

length-make_string_id :
    (u : Text)
    → All (λ c. is_uuid_char c ≡ true) u
    → length (make_string_id (u ++ codes "\n")) ≡ length u + 2
unfolding make_string_id
length-make_string_id [] h = refl
length-make_string_id (c ∷ u) (h, hs) =
    let other : (c == 10) ≡ false = is_uuid_char-newline c h in
    rw other (omega (arith, length-make_string_id u hs))

-- A marker of a new shell is a UUID and a newline, sent by bash as 38 bytes.
length-input_end :
    (u : Text) → IsUuid u → length (make_string_id (into_bytes (u ++ codes "\n"))) ≡ 38
length-input_end u (n, chars) =
    ap (λ t. length (make_string_id t)) (into_bytes-IsUuid u chars)
    ∙ length-make_string_id u chars
    ∙ ap (λ k. k + 2) n

-- Both markers are a UUID and a newline.
record HasIds (b : Bash) : Type 0 where
  input_id : Text
  output_id : Text
  input_is : b.input_end_marker ≡ input_id ++ codes "\n"
  output_is : b.output_end_marker ≡ output_id ++ codes "\n"
  is_input : IsUuid input_id
  is_output : IsUuid output_id

length-input_marker : (b : Bash) → HasIds b → length (make_string_id (input_marker b)) ≡ 38
length-input_marker b ids =
    ap (λ t. length (make_string_id (into_bytes t))) ids.input_is
    ∙ length-input_end ids.input_id ids.is_input

length-output_marker : (b : Bash) → HasIds b → length (make_string_id (output_marker b)) ≡ 38
length-output_marker b ids =
    ap (λ t. length (make_string_id (into_bytes t))) ids.output_is
    ∙ length-input_end ids.output_id ids.is_output

HasIds-AreMarkers : (b : Bash) → HasIds b → AreMarkers (input_marker b) (output_marker b)
HasIds-AreMarkers b ids =
    let m = length-input_marker b ids in
    let n = length-output_marker b ids in
    (omega (arith, m), omega (arith, m), omega (arith, n), omega (arith, n))

All-AreUniform : (n : ℕ) (ids : List Bytes) → All (λ id. length id ≡ n) ids → AreUniform ids
All-AreUniform n ids all k k' id id' e e' =
    All-get_elem? (λ id. length id ≡ n) ids k all e
    ∙ sym (All-get_elem? (λ id. length id ≡ n) ids k' all e')

module _ (b : Bash) (ids : HasIds b) where
  abbrev m : Bytes
  m = input_marker b

  abbrev n : Bytes
  n = output_marker b

  transitions-AreUniform :
      (s : BashState) (ts : List (Transition BashState ShellOutputType))
      → get (transitions (input_marker b) (output_marker b)) s ≡ some ts
      → AreUniform (identifiers ts)
  unfolding transitions get
  transitions-AreUniform idle ts g =
      subst (λ ts. AreUniform (identifiers ts)) (some-injective g)
        (All-AreUniform (length (make_string_id shell_prompt_input_start))
          (make_string_id shell_prompt_input_start ∷ []) (refl, tt))
  transitions-AreUniform cmd_input ts g =
      subst (λ ts. AreUniform (identifiers ts)) (some-injective g)
        (All-AreUniform 38 (input_end m n ∷ output_end m n ∷ [])
          (length-input_marker b ids, (length-output_marker b ids, tt)))
  transitions-AreUniform BashState.output ts g =
      subst (λ ts. AreUniform (identifiers ts)) (some-injective g)
        (All-AreUniform 38 (input_end m n ∷ output_end m n ∷ [])
          (length-input_marker b ids, (length-output_marker b ids, tt)))

  IsBash-IsUniform : (q : BashParser) → IsBash (input_marker b) (output_marker b) q → IsUniform q
  IsBash-IsUniform q is s ts g =
      transitions-AreUniform s ts (ap (λ m. get m s) (sym is.state_map) ∙ g)

module _ (s : Platform) (o : Outside) (uuids : (h : History) → IsUuid (s.on_new_uuid h)) where
  new_bash-HasIds :
      (shell_pathname shell_name : Text) (h h' : History) (b : Bash)
      → new_bash s shell_pathname shell_name h ≡ (ok b, h')
      → HasIds b
  unfolding new_bash
  new_bash-HasIds shell_pathname shell_name h h' b e =
      subst HasIds (ok-injective (ap (λ r. r.0) e)) (record {
        input_id = s.on_new_uuid (new_uuid ∷ h);
        output_id = s.on_new_uuid (new_uuid ∷ new_uuid ∷ h);
        input_is = refl;
        output_is = refl;
        is_input = uuids (new_uuid ∷ h);
        is_output = uuids (new_uuid ∷ new_uuid ∷ h);
      })

  shell_of-HasIds :
      (shell_pathname : Text) (found : Option Text) (h h' : History) (b : Bash)
      → shell_of s o shell_pathname found h ≡ (ok b, h')
      → HasIds b
  shell_of-HasIds shell_pathname none h h' b e = cc
  shell_of-HasIds shell_pathname (some name) h h' b e =
      elim (Bool-cases (bytes_eq name (codes "csh"))) [
        | inl is_csh ↦ let e' = rw is_csh at e in cc
        | inr other ↦ new_bash-HasIds shell_pathname name h h' b (rw other at e)
      ]

  get_shell-HasIds :
      (name : Option Text) (h h' : History) (b : Bash)
      → get_shell s o name h ≡ (ok b, h')
      → HasIds b
  unfolding get_shell
  get_shell-HasIds name h h' b e =
      let (shell_pathname, h1, _, rest) = bind-ok (named_shell s o name) _ h e in
      shell_of-HasIds shell_pathname (file_name shell_pathname) h1 h' b rest

  -- If UUIDs are written in their hyphenated form and `get_shell` returns a shell, then its proxy is created
  -- with no panic, and is coupled.
  pub get_shell-IsCoupled :
      (name : Option Text) (h h' h1 : History) (b : Bash) (session_id : ℕ)
      → get_shell s o name h ≡ (ok b, h')
      → (p : ShellProxy) × (create_bash_proxy b h1 session_id ≡ ok p)
        × IsCoupled (input_marker b) (output_marker b) p
  unfolding create_bash_proxy create_proxy
  get_shell-IsCoupled name h h' h1 b session_id e =
      let (q, made, coupled) =
        create_proxy-IsCoupled (input_marker b) (output_marker b) h1 session_id
          (HasIds-AreMarkers b (get_shell-HasIds name h h' b e)) in
      (create_proxy h1 session_id q, rw (create_bash_proxy, made) refl, coupled)

  -- If UUIDs are written in their hyphenated form, then for the proxy of a shell that `get_shell` returned,
  -- after any calls of `handle_input` and `handle_output` that return, it does not matter how the next output
  -- is cut into any number of reads: all calls of `parse` return, and together they make the changes of
  -- state that one read of all of it makes, in the same order, and end in the same state.
  pub get_shell-parse :
      (name : Option Text) (h h' h1 : History) (b : Bash) (session_id : ℕ) (p p' : ShellProxy)
      (first : Bytes) (pieces : List Bytes)
      → get_shell s o name h ≡ (ok b, h')
      → create_bash_proxy b h1 session_id ≡ ok p
      → Handled o p p'
      → (xs zs : List (StepResults ShellOutputType Bool)) × (p1 p2 : BashParser) × (parse_pieces
            p'.output_parser first pieces
          ≡ ok (xs, p1))
        × (parse p'.output_parser (joined first pieces) ≡ ok (zs, p2))
        × (changes xs ≡ changes zs)
        × (p1.state ≡ p2.state)
  get_shell-parse name h h' h1 b session_id p p' first pieces e created handled =
      let (q, created', coupled) = get_shell-IsCoupled name h h' h1 b session_id e in
      let same : q ≡ p = ok-injective (sym created' ∙ created) in
      let coupled' =
        Handled-IsCoupled (input_marker b) (output_marker b) o (subst (IsCoupled _ _) same coupled)
          handled in
      parse_pieces-joined p'.output_parser first pieces coupled'.0.valid
        (IsBash-IsUniform b (get_shell-HasIds name h h' b e) p'.output_parser coupled'.0)
