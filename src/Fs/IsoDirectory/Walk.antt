-- ===== src/Fs/IsoDirectory/Walk.antt =====
-- `find` follows a path from directory to directory.
use lamb_os.Base.{
  ℕ, zero, suc, ◌+◌, ◌^◌, ◌<◌, ◌≤◌, Bool, true, false, not, List, [], ◌∷◌, ◌++◌, Option, none, some,
  ◌≡◌, refl, sym, ap, ◌∙◌, arith, length, inl, inr, tail, false≢true, Bool-cases, ◌==◌,
}
use lamb_os.Base.Outcome.{done}
use lamb_os.Text.StringTokenizer.{
  StringTokenizer, is_delim, init, copied_from, next_token, has_next_token,
}
use lamb_os.Text.StringTokenizer.Words.{
  at_end, words, skip, word, after, words-skip, words-word, skip-cases,
}
use lamb_os.Text.StringTokenizer.Tokens.{left_of, no_null, copied_lem, next_token_lem}
use lamb_os.Fs.IsoRecord.{DirectoryEntry}
use lamb_os.Fs.IsoRecord.Records.{DirectoryRecord}
use lamb_os.Fs.IsoDirectory.{contents_of, before_null, search, on_found, find_tokens, find}
use lamb_os.Fs.IsoDirectory.Search.{IsListing, IsBytes, directory_bytes, first_named, search_finds}

abbrev pub slash : ℕ → Bool
slash = is_delim (b'/' ∷ [])

abbrev is_more : List (List ℕ) → Bool
is_more [] = false
is_more (w ∷ ws) = true

-- A tokenizer that is about to return the words of a path.
record IsReady (t : StringTokenizer) (ws : List (List ℕ)) : Type 0 where
  left : words (is_delim t.delimiters) (left_of t) ≡ ws
  inside : t.current_index ≤ length t.string
  short : length t.string < 2 ^ 32
  plain : no_null t.string ≡ true

is_more-words :
    (delim : ℕ → Bool) (cs : List ℕ) → not (at_end delim (skip delim cs)) ≡ is_more (words delim cs)
is_more-words delim cs = elim (skip-cases delim cs) [
  | inl over ↦ rw (sym (words-skip delim cs), over) refl
  | inr going ↦ rw (sym (words-skip delim cs), words-word delim (skip delim cs) going, going) refl
]

has_more :
    (t : StringTokenizer) (ws : List (List ℕ)) → IsReady t ws → has_next_token t ≡ done (is_more ws)
has_more t ws r =
    (next_token_lem (λ k. k) t r.inside r.short r.plain).0
    ∙ ap done (is_more-words (is_delim t.delimiters) (left_of t) ∙ ap is_more r.left)

turn :
    (fresh : ℕ → ℕ) (t : StringTokenizer) (w : List ℕ) (ws : List (List ℕ))
    → IsReady t (w ∷ ws)
    → (t' : StringTokenizer) × (next_token fresh t ≡ done (w, t')) × IsReady t' ws
turn fresh t w ws r =
    let delim = is_delim t.delimiters in
    let (i, e, le, rest) = (next_token_lem fresh t r.inside r.short r.plain).1 in
    elim (skip-cases delim (left_of t)) [
      | inl over ↦ absurd (
          false≢true
            (ap is_more (sym (ap (words delim) over) ∙ words-skip delim (left_of t) ∙ r.left)))
      | inr going ↦
          let apart : word delim (skip delim (left_of t))
                ∷ words delim (after delim (skip delim (left_of t)))
              ≡ w ∷ ws =
            sym (words-word delim (skip delim (left_of t)) going)
            ∙ words-skip delim (left_of t)
            ∙ r.left in
          (
            record t { current_index = i },
            e ∙ ap (λ v. done (v, record t { current_index = i })) (ap head apart),
            record {
              left = ap (words delim) rest ∙ ap tail apart;
              inside = le;
              short = r.short;
              plain = r.plain;
            },
          )
    ]
  where
    head : List (List ℕ) → List ℕ
    head [] = []
    head (v ∷ vs) = v

module _ (sector_size : ℕ) (read_sectors : ℕ → ℕ → List ℕ) where
  -- The drive holds these records where the entry says that its directory is; `n` bounds the entries
  -- of an area and the number of records.
  pub record IsStored (n : ℕ) (entry : DirectoryEntry) (rs : List DirectoryRecord) : Type 0 where
    pub behind : List ℕ
    pub stored : contents_of sector_size read_sectors entry ≡ directory_bytes rs ++ (0 ∷ behind)
    pub listing : IsListing n rs
    pub some_bytes : 0 < entry.extent_length
    pub few : length rs ≤ n

  -- `Walk n entry names o`: following the names from the directory of `entry` ends at `o`.
  pub data Walk (n : ℕ) : DirectoryEntry → List (List ℕ) → Option DirectoryEntry → Type 0 where
    missing :
        (entry : DirectoryEntry) (rs : List DirectoryRecord) (w : List ℕ) (ws : List (List ℕ))
        → IsStored n entry rs
        → IsBytes w
        → first_named rs w ≡ none
        → Walk n entry (w ∷ ws) none
    arrive :
        (entry : DirectoryEntry) (rs : List DirectoryRecord) (w : List ℕ) (e : DirectoryEntry)
        → IsStored n entry rs
        → IsBytes w
        → first_named rs w ≡ some e
        → Walk n entry (w ∷ []) (some e)
    descend :
        (entry : DirectoryEntry) (rs : List DirectoryRecord) (w v : List ℕ) (ws : List (List ℕ))
        (e : DirectoryEntry) (o : Option DirectoryEntry)
        → IsStored n entry rs
        → IsBytes w
        → first_named rs w ≡ some e
        → Walk n e (v ∷ ws) o
        → Walk n entry (w ∷ v ∷ ws) o

  search_stored :
      (n : ℕ) (entry : DirectoryEntry) (rs : List DirectoryRecord) (w : List ℕ) (rounds : ℕ)
      → IsStored n entry rs
      → IsBytes w
      → n + n < rounds
      → search rounds (contents_of sector_size read_sectors entry) entry.extent_length 0 w
        ≡ done (some (first_named rs w))
  search_stored n entry rs w rounds st text enough =
      search_finds n rs (contents_of sector_size read_sectors entry) st.behind 0 entry.extent_length
        rounds w st.listing text st.some_bytes st.stored (omega (arith, st.few))

  find_tokens_walks :
      (fresh : ℕ → ℕ) (n : ℕ) (entry : DirectoryEntry) (ws : List (List ℕ))
      (o : Option DirectoryEntry) (t : StringTokenizer) (rounds : ℕ)
      → Walk n entry ws o
      → IsReady t ws
      → n + n + length ws < rounds
      → find_tokens sector_size read_sectors fresh rounds entry t ≡ done (some o)
  unfolding find_tokens on_found
  find_tokens_walks fresh n entry ws o t zero walk ready enough = absurd (omega arith)
  find_tokens_walks fresh n _ _ _ t (suc rounds) (missing entry rs w ws st text e) ready enough =
      let (t', takes, ready') = turn fresh t w ws ready in
      rw (takes, search_stored n entry rs w rounds st text (omega arith), e) refl
  find_tokens_walks fresh n _ _ _ t (suc rounds) (arrive entry rs w e st text at) ready enough =
      let (t', takes, ready') = turn fresh t w [] ready in
      rw (takes, search_stored n entry rs w rounds st text (omega arith), at, has_more t' [] ready')
        refl
  find_tokens_walks fresh n _ _ _ t (suc rounds) (descend entry rs w v ws e o st text at walk) ready
        enough =
      let (t', takes, ready') = turn fresh t w (v ∷ ws) ready in
      rw
        (
          takes,
          search_stored n entry rs w rounds st text (omega arith),
          at,
          has_more t' (v ∷ ws) ready',
          find_tokens_walks fresh n e (v ∷ ws) o t' rounds walk ready' (omega arith),
        )
        refl

  before_null-plain : (s : List ℕ) → no_null (before_null s) ≡ true
  unfolding before_null
  before_null-plain [] = refl
  before_null-plain (c ∷ s) = elim (Bool-cases (c == 0)) [
    | inl z ↦ rw (z)
    | inr nz ↦ rw (nz) (rw (nz) (before_null-plain s))
  ]

  length-before_null : (s : List ℕ) → length (before_null s) ≤ length s
  unfolding before_null
  length-before_null [] = omega arith
  length-before_null (c ∷ s) = elim (Bool-cases (c == 0)) [
    | inl z ↦ rw (z) (omega arith)
    | inr nz ↦ rw (nz) (omega (arith, length-before_null s))
  ]

  -- Following a path, a C string, from a directory that the drive stores, `find` ends, given enough
  -- rounds, where the names of the path lead: at the entry of the last name, or at none when a
  -- directory on the way has no record of the name that is looked up in it.
  pub find_lem :
      (fresh : ℕ → ℕ) (n : ℕ) (entry : DirectoryEntry) (path : List ℕ) (o : Option DirectoryEntry)
      (rounds : ℕ)
      → Walk n entry (words slash (before_null path)) o
      → length path < 2 ^ 32
      → n + n + length (words slash (before_null path)) < rounds
      → find sector_size read_sectors fresh rounds entry path ≡ done (some o)
  unfolding find init copied_from
  find_lem fresh n entry path o rounds walk short enough =
      let text = before_null path in
      rw (copied_lem fresh text (before_null-plain path)) (
        find_tokens_walks fresh n entry (words slash text) o
          (record { string = text; delimiters = b'/' ∷ []; current_index = 0 }) rounds walk
          (record {
            left = refl;
            inside = omega arith;
            short = omega (arith, length-before_null path);
            plain = before_null-plain path;
          })
          enough)
