-- ===== src/Device/Keyboard/Events.antt =====
-- What `read` makes of the scan codes that wait and that are to come.
use lamb_os.Base.{
  ℕ, ◌<◌, ◌≡◌, ◌≢◌, ◌⊎◌, inl, inr, refl, ap, ◌∙◌, bit_and, Bool, true, false, List, [], ◌∷◌, ◌++◌,
  none, some, ◌==◌, ltb, if◌then◌else◌, arith, length, set, get_or, all, get_or-all, get_or_beyond,
  Bool-cases, ltb→lt, ltb→le, ne→==, length-set, length-replicate,
}
use lamb_os.Base.Outcome.{done, load_in, store_in}
use lamb_os.Util.RingBuffer
use lamb_os.Util.RingBuffer.{RingBuffer}
use lamb_os.Util.RingBuffer.Inv
use lamb_os.Util.RingBuffer.Refine.{contents, length-contents, enqueue_refines, pop_refines}
use lamb_os.Device.Keys.{KeyEventType, KeyCode, KeyEvent, number}
use lamb_os.Device.Keyboard.{
  Keyboard, init, scan_set_1, push_scan_code, wait, event_of, is_press, read, key_is_pressed,
}

pub record IsValid (kb : Keyboard) : Type 0 where
  pub codes : Inv.IsValid kb.buffer
  pub capacity : kb.buffer.capacity ≡ 128
  pub keys : length kb.keys_pressed ≡ 256

-- The codes that are not read yet: those in the buffer, and those to come.
abbrev pub waiting : Keyboard → List ℕ → List ℕ
waiting kb arriving = contents 0 kb.buffer ++ arriving

-- Of each scan code: its key, and whether the key is pressed.
unfoldable pub key_of : ℕ → KeyCode
key_of code = get_or scan_set_1 (bit_and code 0x7F) KeyCode.key_null

unfoldable pub type_of : ℕ → KeyEventType
type_of code = if bit_and code 128 == 128 then KeyEventType.released else KeyEventType.pressed

abbrev pub presses : ℕ → Bool
presses code = is_press (type_of code)

abbrev pub event : ℕ → KeyEvent
event code = record { type = type_of code; key_code = key_of code }

event_of_returns : (code : ℕ) → event_of code ≡ done (event code)
unfolding event_of key_of type_of
event_of_returns code = elim (Bool-cases (ltb (bit_and code 0x7F) 89)) [
  | inl lt ↦ rw (
    lt,
    load_in scan_set_1 (bit_and code 0x7F) KeyCode.key_null (ltb→lt (bit_and code 0x7F) 89 lt),
  )
  | inr ge ↦ rw (
    ge,
    get_or_beyond scan_set_1 (bit_and code 0x7F) KeyCode.key_null
        (ltb→le (bit_and code 0x7F) 89 ge),
  )
]

abbrev in_tables : KeyCode → Bool
in_tables key = ltb (number key) 128

every_entry_in_tables : all in_tables scan_set_1 ≡ true
unfolding number
every_entry_in_tables = refl

null_in_tables : in_tables KeyCode.key_null ≡ true
unfolding number
null_in_tables = refl

-- No scan code leads beyond the tables of keys.
pub number-key_of : (code : ℕ) → number (key_of code) < 128
unfolding key_of
number-key_of code = ltb→lt (number (get_or scan_set_1 (bit_and code 0x7F) KeyCode.key_null)) 128 (
    get_or-all in_tables scan_set_1 (bit_and code 0x7F) KeyCode.key_null every_entry_in_tables
      null_in_tables)

pub init-IsValid : IsValid init
unfolding init RingBuffer.init
init-IsValid = record {
  codes = Inv.init-IsValid 0 128 (omega arith) (omega arith);
  capacity = refl;
  keys = length-replicate 256 false;
}

wait_ready :
    (kb : Keyboard) (arriving : List ℕ)
    → kb.buffer.size ≢ 0
    → wait kb arriving ≡ done (some (kb, arriving))
unfolding wait RingBuffer.is_empty
wait_ready kb [] ne = rw (ne→== kb.buffer.size 0 ne)
wait_ready kb (c ∷ cs) ne = rw (ne→== kb.buffer.size 0 ne)

pub push_scan_code_returns :
    (kb : Keyboard) (c : ℕ)
    → IsValid kb
    → contents 0 kb.buffer ≡ []
    → (kb' : Keyboard) × (push_scan_code kb c ≡ done kb')
      × IsValid kb'
      × (contents 0 kb'.buffer ≡ c ∷ [])
      × (kb'.keys_pressed ≡ kb.keys_pressed)
unfolding push_scan_code
push_scan_code_returns kb c v nothing =
    let (b, e, valid, cap, q) = enqueue_refines 0 kb.buffer c v.codes in
    (
      record kb { buffer = b },
      rw (e),
      record { codes = valid; capacity = cap ∙ v.capacity; keys = v.keys },
      q ∙ rw (nothing, v.capacity),
      refl,
    )

-- With a code in the buffer.
pub read_ready :
    (kb : Keyboard) (arriving : List ℕ) (c : ℕ) (q : List ℕ)
    → IsValid kb
    → contents 0 kb.buffer ≡ c ∷ q
    → (kb' : Keyboard) × (read kb arriving ≡ done (some (event c, kb', arriving)))
      × IsValid kb'
      × (contents 0 kb'.buffer ≡ q)
      × (kb'.keys_pressed ≡ set kb.keys_pressed (number (key_of c)) (presses c))
unfolding read
read_ready kb arriving c q v held =
    let ne : kb.buffer.size ≢ 0 = omega (arith, ap length held, length-contents 0 kb.buffer) in
    let room : number (key_of c) < length kb.keys_pressed =
      omega (arith, number-key_of c, v.keys) in
    let (x, b, e, valid, cap, both) = pop_refines 0 kb.buffer v.codes in
    let split : (x, contents 0 b) ≡ (c, q) = both ∙ rw (held) in
    let is_c : x ≡ c = ap (λ t. t.0) split in
    (
      record { buffer = b; keys_pressed = set kb.keys_pressed (number (key_of c)) (presses c) },
      rw (
        wait_ready kb arriving ne,
        e,
        is_c,
        event_of_returns c,
        store_in kb.keys_pressed (number (key_of c)) (presses c) room,
      ),
      record {
        codes = valid;
        capacity = cap ∙ v.capacity;
        keys = length-set kb.keys_pressed (number (key_of c)) (presses c) ∙ v.keys;
      },
      ap (λ t. t.1) split,
      refl,
    )

-- With none in the buffer, the next one that comes.
read_pushed :
    (kb kb' : Keyboard) (c : ℕ) (arriving : List ℕ)
    → contents 0 kb.buffer ≡ []
    → push_scan_code kb c ≡ done kb'
    → read kb (c ∷ arriving) ≡ read kb' arriving
unfolding read wait RingBuffer.is_empty
read_pushed kb kb' c arriving nothing e =
    let none_held : (kb.buffer.size == 0) ≡ true =
      ground (arith, ap length nothing, length-contents 0 kb.buffer) in
    rw (none_held, e)

read-none : (kb : Keyboard) → contents 0 kb.buffer ≡ [] → read kb [] ≡ done none
unfolding read wait RingBuffer.is_empty
read-none kb nothing =
    let none_held : (kb.buffer.size == 0) ≡ true =
      ground (arith, ap length nothing, length-contents 0 kb.buffer) in
    rw (none_held)

-- `read` takes the next code that waits or comes, and only without any waits for ever.
pub read_lem :
    (kb : Keyboard) (arriving : List ℕ)
    → IsValid kb
    → ((waiting kb arriving ≡ []) × (read kb arriving ≡ done none))
      ⊎ ((c : ℕ) × (kb' : Keyboard) × (arriving' : List ℕ) × (waiting kb arriving
            ≡ c ∷ waiting kb' arriving')
          × (read kb arriving ≡ done (some (event c, kb', arriving')))
          × IsValid kb'
          × (kb'.keys_pressed ≡ set kb.keys_pressed (number (key_of c)) (presses c)))
read_lem kb arriving v = held (contents 0 kb.buffer) refl arriving
  where
    held :
        (q : List ℕ)
        → contents 0 kb.buffer ≡ q
        → (arriving : List ℕ)
        → ((waiting kb arriving ≡ []) × (read kb arriving ≡ done none))
          ⊎ ((c : ℕ) × (kb' : Keyboard) × (arriving' : List ℕ) × (waiting kb arriving
                ≡ c ∷ waiting kb' arriving')
              × (read kb arriving ≡ done (some (event c, kb', arriving')))
              × IsValid kb'
              × (kb'.keys_pressed ≡ set kb.keys_pressed (number (key_of c)) (presses c)))
    held [] nothing [] = inl (rw (nothing), read-none kb nothing)
    held [] nothing (c ∷ cs) =
        let (kb₁, e, v₁, one, keys₁) = push_scan_code_returns kb c v nothing in
        let (kb₂, r, v₂, rest, keys₂) = read_ready kb₁ cs c [] v₁ one in
        inr (
          c,
          kb₂,
          cs,
          rw (nothing, rest),
          read_pushed kb kb₁ c cs nothing e ∙ r,
          v₂,
          keys₂ ∙ ap (λ k. set k (number (key_of c)) (presses c)) keys₁,
        )
    held (c ∷ q) some_held cs =
        let (kb₂, r, v₂, rest, keys) = read_ready kb cs c q v some_held in
        inr (c, kb₂, cs, rw (some_held, rest), r, v₂, keys)

pub key_is_pressed_returns :
    (kb : Keyboard) (key : KeyCode)
    → number key < 256
    → length kb.keys_pressed ≡ 256
    → key_is_pressed kb key ≡ done (get_or kb.keys_pressed (number key) false)
unfolding key_is_pressed
key_is_pressed_returns kb key h e = load_in kb.keys_pressed (number key) false (omega arith)
