-- ===== src/Io/FileReader.antt =====
-- libsys/include/io/FileReader.hpp and libsys/src/io/FileReader.cpp: a file that is read into memory
-- as far as its bytes are asked for. `size_t` has 32 bits.
pub mod Reads
pub mod Ranges
pub mod Whole
pub mod Overruns
mod Tests
use lamb_os.Base.{
  ℕ, zero, suc, ◌+◌, ◌-◌, ◌*◌, ◌%◌, ◌^◌, Bool, true, false, List, Option, none, some, ltb, leb,
  ◌==◌, if◌then◌else◌,
}
use lamb_os.Base.Outcome.{Outcome, done, fault, ◌>>=◌, load, store}
use lamb_os.Util.DynamicArray.{DynamicArray, init, resize}
use lamb_os.Io.InputStream.{InputStream, Filled, byte_or_end, read_bytes}

-- `stream` is the pointer `_fileStream`.
pub record FileReader (S : Type 0) : Type 0 where
  pub stream : Option S
  pub file_bytes : DynamicArray ℕ
  pub file_extent : ℕ
  pub eof_reached : Bool

unfoldable pub open_file : {S : Type 0} → Option S → FileReader S
open_file stream = record {
  stream = stream;
  file_bytes = init 0 512;
  file_extent = 0;
  eof_reached = elim stream [ none ↦ true | some _ ↦ false ];
}

unfoldable pub mark_eof_reached : {S : Type 0} → FileReader S → FileReader S
mark_eof_reached r = record r { eof_reached = true; stream = none }

-- The new size of the cache when `offset` is behind its end.
unfoldable pub new_size : ℕ → ℕ → ℕ
new_size offset double_capacity = if ltb offset double_capacity then double_capacity else offset

unfoldable pub grown : {S : Type 0} → FileReader S → ℕ → Outcome (FileReader S)
grown r offset =
    if leb r.file_bytes.capacity offset
    then (resize 0 r.file_bytes (new_size offset (r.file_bytes.capacity * 2 % 2 ^ 32)) 0
        >>= λ bytes. done (record r { file_bytes = bytes }))
    else done r

module _ {S : Type 0} (input : InputStream S) where
  -- After `_fileStream->read(...)`.
  unfoldable pub after_read : FileReader S → ℕ → ℕ → Filled S → Outcome (Option ℕ × FileReader S)
  after_read r offset expected f =
      let r' = record r {
        stream = some f.stream;
        file_bytes = record r.file_bytes { cells = f.bytes };
        file_extent = r.file_extent + f.bytes_read;
      } in
      if expected == f.bytes_read
      then (load f.bytes offset >>= λ b. done (some b, r'))
      else done (none, mark_eof_reached r')

  -- A call through a null pointer is undefined.
  unfoldable pub fill : FileReader S → ℕ → Option S → Outcome (Option ℕ × FileReader S)
  fill r offset none = fault
  fill r offset (some s) =
      let expected = (1 + (offset - r.file_extent)) % 2 ^ 32 in
      read_bytes input expected r.file_bytes.cells r.file_extent 0 s >>= λ f.
      after_read r offset expected f

  unfoldable pub read : FileReader S → ℕ → Outcome (Option ℕ × FileReader S)
  read r offset =
      if leb r.file_extent offset
      then (if r.eof_reached
          then done (none, r)
          else (grown r offset >>= λ r'. fill r' offset r'.stream))
      else (load r.file_bytes.cells offset >>= λ b. done (some b, r))

  -- for (size_t i = offset; i <= lastIndex; ++i), with `n` rounds to go.
  unfoldable pub copy_out : ℕ → FileReader S → List ℕ → ℕ → ℕ → ℕ → Outcome (ℕ × List ℕ)
  copy_out zero r buf offset i count = done (count, buf)
  copy_out (suc n) r buf offset i count =
      if leb r.file_extent i
      then done (count, buf)
      else (load r.file_bytes.cells i >>= λ b.
          store buf (i - offset) b >>= λ buf'. copy_out n r buf' offset (i + 1) (count + 1))

  -- `read(buf, offset, bytesToRead)`; `last_index` wraps.
  unfoldable pub read_range : FileReader S → List ℕ → ℕ → ℕ → Outcome (ℕ × List ℕ × FileReader S)
  read_range r buf offset bytes_to_read =
      if bytes_to_read == 0
      then done (0, buf, r)
      else (let last_index = (offset + bytes_to_read - 1) % 2 ^ 32 in
          read r last_index >>= λ x.
          copy_out (last_index + 1 - offset) x.1 buf offset offset 0 >>= λ y. done (y.0, y.1, x.1))

  -- The loop of `readAll()`, with `fuel` rounds to go; without fuel there is no result.
  unfoldable pub read_all : ℕ → FileReader S → ℕ → Outcome (Option (FileReader S))
  read_all zero r i = done none
  read_all (suc fuel) r i =
      read r i >>= λ x. byte_or_end x (λ r'. done (some r')) (λ b r'. read_all fuel r' (i + 1))
