-- ===== src/Device/KeyboardStream/Typing.antt =====
-- The characters that are typed.
use lamb_os.Base.{
  ℕ, zero, suc, ◌<◌, ◌≡◌, ◌⊎◌, inl, inr, refl, ap, ◌∙◌, Bool, true, false, not, ◌&&◌, ◌||◌, List,
  [], ◌∷◌, ◌++◌, none, some, ◌==◌, if◌then◌else◌, arith, length, set, get_or, get_or-set,
  Bool-cases, length-set,
}
use lamb_os.Base.Outcome.{done, load, load_in}
use lamb_os.Device.Keys.{KeyCode, number}
use lamb_os.Device.Keyboard.{Keyboard, read, key_is_pressed}
use lamb_os.Device.Keyboard.Events.{
  IsValid, waiting, key_of, presses, event, read_lem, number-key_of, key_is_pressed_returns,
}
use lamb_os.Device.KeyboardStream.{
  KeyboardStream, key_to_char, key_to_char_shift, char_with_mod_keys, next_key, read_byte,
}

-- A code that types: the press of a key that has a character.
abbrev pub types : ℕ → Bool
types c = presses c && not (get_or key_to_char (number (key_of c)) 0 == 0)

abbrev pub silent : List ℕ → Bool
silent [] = true
silent (c ∷ cs) = not (types c) && silent cs

-- Whether a key is held after some codes: its last one decides.
abbrev pub held : KeyCode → Bool → List ℕ → Bool
held key b [] = b
held key b (c ∷ cs) = held key (if number (key_of c) == number key then presses c else b) cs

abbrev pub held_after : Keyboard → List ℕ → KeyCode → Bool
held_after kb cs key = held key (get_or kb.keys_pressed (number key) false) cs

abbrev pub shifted : Keyboard → List ℕ → Bool
shifted kb cs = held_after kb cs KeyCode.key_left_shift || held_after kb cs KeyCode.key_right_shift

-- The character of a code, with shift or without.
abbrev pub character : Bool → ℕ → ℕ
character shift c = get_or (if shift then key_to_char_shift else key_to_char) (number (key_of c)) 0

abbrev pressed_after : List Bool → List ℕ → List Bool
pressed_after keys [] = keys
pressed_after keys (c ∷ cs) = pressed_after (set keys (number (key_of c)) (presses c)) cs

length-pressed_after :
    (keys : List Bool) (cs : List ℕ) → length (pressed_after keys cs) ≡ length keys
length-pressed_after keys [] = refl
length-pressed_after keys (c ∷ cs) =
    length-pressed_after (set keys (number (key_of c)) (presses c)) cs
    ∙ length-set keys (number (key_of c)) (presses c)

held_lem :
    (keys : List Bool) (cs : List ℕ) (key : KeyCode)
    → length keys ≡ 256
    → get_or (pressed_after keys cs) (number key) false
      ≡ held key (get_or keys (number key) false) cs
held_lem keys [] key h = refl
held_lem keys (c ∷ cs) key h =
    held_lem (set keys (number (key_of c)) (presses c)) cs key
      (length-set keys (number (key_of c)) (presses c) ∙ h)
    ∙ ap (λ b. held key b cs)
        (get_or-set keys (number (key_of c)) (number key) (presses c) false
          (omega (arith, number-key_of c)))

-- What `next_key` finds: nothing, or the first code that types.
record Found (kb : Keyboard) (arriving : List ℕ) (n : ℕ) : Type 0 where
  before : List ℕ
  code : ℕ
  kb' : Keyboard
  arriving' : List ℕ
  split : waiting kb arriving ≡ before ++ (code ∷ waiting kb' arriving')
  quiet : silent before ≡ true
  typing : types code ≡ true
  returns : next_key n kb arriving ≡ done (some (event code, kb', arriving'))
  valid : IsValid kb'
  keys : kb'.keys_pressed ≡ pressed_after kb.keys_pressed (before ++ (code ∷ []))

not_both : (a b : Bool) → (not a || b) ≡ not (a && not b)
not_both true true = refl
not_both true false = refl
not_both false b = refl

-- The loop's test.
goes_on :
    (c : ℕ) → (not (presses c) || get_or key_to_char (number (key_of c)) 0 == 0) ≡ not (types c)
goes_on c = not_both (presses c) (get_or key_to_char (number (key_of c)) 0 == 0)

load_char :
    (shift : Bool) (c : ℕ)
    → load (if shift then key_to_char_shift else key_to_char) (number (key_of c))
      ≡ done (character shift c)
load_char true c = load_in key_to_char_shift (number (key_of c)) 0 (number-key_of c)
load_char false c = load_in key_to_char (number (key_of c)) 0 (number-key_of c)

-- One round of the loop.
next_key_step :
    (n : ℕ) (kb kb' : Keyboard) (arriving arriving' : List ℕ) (c : ℕ)
    → read kb arriving ≡ done (some (event c, kb', arriving'))
    → next_key (suc n) kb arriving
      ≡ (if not (types c) then next_key n kb' arriving' else done (some (event c, kb', arriving')))
unfolding next_key
next_key_step n kb kb' arriving arriving' c e = rw (e, load_char false c, goes_on c)

next_key_lem :
    (n : ℕ) (kb : Keyboard) (arriving : List ℕ)
    → IsValid kb
    → length (waiting kb arriving) < n
    → ((silent (waiting kb arriving) ≡ true) × (next_key n kb arriving ≡ done none))
      ⊎ Found kb arriving n
unfolding next_key
next_key_lem zero kb arriving v h = absurd (omega arith)
next_key_lem (suc n) kb arriving v h = elim (read_lem kb arriving v) [
  | inl (nothing, e) ↦ inl (ap silent nothing, rw (e))
  | inr (c, kb₁, arriving₁, w, e, v₁, keys₁) ↦
      let step = next_key_step n kb kb₁ arriving arriving₁ c e in
      elim (Bool-cases (types c)) [
        | inl typing ↦ inr (record {
          before = [];
          code = c;
          kb' = kb₁;
          arriving' = arriving₁;
          split = w;
          quiet = refl;
          typing = typing;
          returns = step ∙ rw (typing);
          valid = v₁;
          keys = keys₁;
        })
        | inr idle ↦ elim (next_key_lem n kb₁ arriving₁ v₁ (omega (arith, ap length w))) [
          | inl (quiet, e₁) ↦ inl (ap silent w ∙ rw (idle) quiet, step ∙ rw (idle) e₁)
          | inr f ↦ inr (record {
            before = c ∷ f.before;
            code = f.code;
            kb' = f.kb';
            arriving' = f.arriving';
            split = w ∙ ap (λ q. c ∷ q) f.split;
            quiet = rw (idle) f.quiet;
            typing = f.typing;
            returns = step ∙ rw (idle) f.returns;
            valid = f.valid;
            keys = f.keys ∙ ap (λ k. pressed_after k (f.before ++ (f.code ∷ []))) keys₁;
          })
        ]
      ]
]

either : (a b : Bool) → (if a then done true else done b) ≡ done (a || b)
either true b = refl
either false b = refl

branches :
    (shift : Bool) (i : ℕ)
    → (if shift then load key_to_char_shift i else load key_to_char i)
      ≡ load (if shift then key_to_char_shift else key_to_char) i
branches true i = refl
branches false i = refl

shift_keys : (number KeyCode.key_left_shift ≡ 55) × (number KeyCode.key_right_shift ≡ 66)
unfolding number
shift_keys = (refl, refl)

shift_after :
    (kb kb' : Keyboard) (cs : List ℕ) (key : KeyCode)
    → length kb.keys_pressed ≡ 256
    → length kb'.keys_pressed ≡ 256
    → number key < 256
    → kb'.keys_pressed ≡ pressed_after kb.keys_pressed cs
    → key_is_pressed kb' key ≡ done (held_after kb cs key)
shift_after kb kb' cs key h h' lt e =
    key_is_pressed_returns kb' key lt h'
    ∙ ap (λ k. done (get_or k (number key) false)) e
    ∙ ap done (held_lem kb.keys_pressed cs key h)

char_with_mod_keys_returns :
    (kb kb' : Keyboard) (cs : List ℕ) (c : ℕ)
    → length kb.keys_pressed ≡ 256
    → length kb'.keys_pressed ≡ 256
    → kb'.keys_pressed ≡ pressed_after kb.keys_pressed cs
    → char_with_mod_keys kb' (key_of c) ≡ done (character (shifted kb cs) c)
unfolding char_with_mod_keys
char_with_mod_keys_returns kb kb' cs c h h' e =
    rw
      (
        shift_after kb kb' cs KeyCode.key_left_shift h h' (omega (arith, shift_keys.0)) e,
        shift_after kb kb' cs KeyCode.key_right_shift h h' (omega (arith, shift_keys.1)) e,
        either (held_after kb cs KeyCode.key_left_shift) (held_after kb cs KeyCode.key_right_shift),
        branches (shifted kb cs) (number (key_of c)),
      )
      (load_char (shifted kb cs) c)

-- `read` on a valid keyboard, with more rounds than codes that wait or come. If no code types, it
-- waits for ever. Otherwise it takes the codes up to the first one that types, and returns and
-- prints that code's character: the shifted one if one of the shift keys is held after those codes.
pub read_byte_lem :
    (n : ℕ) (s : KeyboardStream) (arriving : List ℕ)
    → IsValid s.keyboard
    → length (waiting s.keyboard arriving) < n
    → ((silent (waiting s.keyboard arriving) ≡ true) × (read_byte n s arriving ≡ done none))
      ⊎ ((before : List ℕ) × (c : ℕ) × (s' : KeyboardStream) × (arriving' : List ℕ) × (waiting
              s.keyboard arriving
            ≡ before ++ (c ∷ waiting s'.keyboard arriving'))
          × (silent before ≡ true)
          × (types c ≡ true)
          × (read_byte n s arriving
              ≡ done (some (character (shifted s.keyboard (before ++ (c ∷ []))) c, s', arriving')))
          × (s'.out ≡ s.out ++ (character (shifted s.keyboard (before ++ (c ∷ []))) c ∷ []))
          × IsValid s'.keyboard)
unfolding read_byte
read_byte_lem n s arriving v h = elim (next_key_lem n s.keyboard arriving v h) [
  | inl (quiet, e) ↦ inl (quiet, rw (e))
  | inr f ↦
      let ch = character (shifted s.keyboard (f.before ++ (f.code ∷ []))) f.code in
      inr (
        f.before,
        f.code,
        record { keyboard = f.kb'; out = s.out ++ (ch ∷ []) },
        f.arriving',
        f.split,
        f.quiet,
        f.typing,
        rw (
          f.returns,
          char_with_mod_keys_returns s.keyboard f.kb' (f.before ++ (f.code ∷ [])) f.code v.keys
              f.valid.keys f.keys,
        ),
        refl,
        f.valid,
      )
]
