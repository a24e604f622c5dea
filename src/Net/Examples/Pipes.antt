-- ===== src/Net/Examples/Pipes.antt =====
-- A buffer of bytes of a fixed size, and a connection that hands over and takes a few bytes at a time.
use mathlib.Core.List.{append_assoc}
use gcluster.Common.{
  ℕ, zero, suc, ◌-◌, ◌≤◌, ◌<◌, ◌≡◌, ◌⊎◌, ◌∙◌, sym, ap, refl, Bool, true, [], ◌∷◌, ◌++◌, ltb, ◌==◌,
  length, take, drop, take-append-drop, length-drop, length-append, arith, if◌then◌else◌,
}
use gcluster.Common.Int.{pos, pos_part}
use gcluster.Common.Bytes.{Bytes}
use gcluster.Net.BufferIo.{BufferIo, BufErr, fine, eof, full, IsBuffer, IsReader, IsWriter}

pub record Fixed : Type 0 where
  pub limit : ℕ
  pub items : Bytes

-- What has arrived and is to arrive, or what was sent; a call moves at most one byte more than `piece`.
pub record Pipe : Type 0 where
  pub piece : ℕ
  pub bytes : Bytes

abbrev room : Fixed → ℕ
room b = b.limit - length b.items

abbrev fill : Bytes → Fixed → Fixed × ℕ × BufErr
fill p b =
    if ltb (room b) (length p)
    then (record b { items = b.items ++ take (room b) p }, room b, full)
    else (record b { items = b.items ++ take (length p) p }, length p, fine)

abbrev draw : ℕ → Fixed → Fixed × Bytes × BufErr
draw n b =
    (record b { items = drop n b.items }, take n b.items, if length b.items == 0 then eof else fine)

abbrev fetch_some : ℕ → Pipe → Fixed → Pipe × Fixed × Bool
fetch_some k r b = (
  record r { bytes = drop k r.bytes },
  record b { items = b.items ++ take k r.bytes },
  ltb 0 (length (take k r.bytes)),
)

abbrev fetch : Pipe → Fixed → Pipe × Fixed × Bool
fetch r b = fetch_some (if ltb (room b) (suc r.piece) then room b else suc r.piece) r b

abbrev push : Pipe → Fixed → Pipe × Fixed × Bool
push w b = (
  record w { bytes = w.bytes ++ take (suc w.piece) b.items },
  record b { items = drop (suc w.piece) b.items },
  true,
)

abbrev pub PipeIo : BufferIo
PipeIo = record {
  Buffer = Fixed;
  Reader = Pipe;
  Writer = Pipe;
  new_buffer = λ z. record { limit = pos_part z; items = [] };
  readable = λ b. length b.items;
  write = fill;
  read = draw;
  read_from = fetch;
  write_to = push;
  set_read_deadline = λ t r. (r, true);
  set_write_deadline = λ t w. (w, true);
  clock = λ w. (w, pos 0);
}

pub length-take_bound : (n : ℕ) (xs : Bytes) → length (take n xs) ≤ n
length-take_bound zero xs = omega arith
length-take_bound (suc n) [] = omega arith
length-take_bound (suc n) (x ∷ xs) = let h = length-take_bound n xs in omega (arith, h)

pub take_some : (n : ℕ) (xs : Bytes) → 0 < n → 0 < length xs → 0 < length (take n xs)
take_some zero xs h k = absurd (omega (arith, h))
take_some (suc n) [] h k = absurd (omega (arith, k))
take_some (suc n) (x ∷ xs) h k = omega arith

pub fetch_some-moves :
    (k : ℕ) (r : Pipe) (b : Fixed)
    → (b.items ++ take k r.bytes) ++ drop k r.bytes ≡ b.items ++ r.bytes
fetch_some-moves k r b =
    append_assoc b.items (take k r.bytes) (drop k r.bytes)
    ∙ ap (λ x. b.items ++ x) (take-append-drop k r.bytes)

pub push-moves :
    (w : Pipe) (b : Fixed)
    → (w.bytes ++ take (suc w.piece) b.items) ++ drop (suc w.piece) b.items ≡ w.bytes ++ b.items
push-moves w b =
    append_assoc w.bytes (take (suc w.piece) b.items) (drop (suc w.piece) b.items)
    ∙ ap (λ x. w.bytes ++ x) (take-append-drop (suc w.piece) b.items)

pub fill_contents : (p : Bytes) (b : Fixed) → (fill p b).0.items ≡ b.items ++ take (fill p b).1 p
fill_contents p b = ground arith

pub fill-size : (p : Bytes) (b : Fixed) → (fill p b).0.limit ≡ b.limit
fill-size p b = ground arith

pub fill-err :
    (p : Bytes) (b : Fixed)
    → (((fill p b).2 ≡ fine) × ((fill p b).1 ≡ length p))
      ⊎ (((fill p b).2 ≡ full) × ((fill p b).1 ≤ length p))
fill-err p b = ground arith

pub fill_some :
    (p : Bytes) (b : Fixed) → 0 < b.limit → b.items ≡ [] → 0 < length p → 0 < (fill p b).1
fill_some p b z h k = ground (arith, ap length h, z, k)

pub draw_fine : (n : ℕ) (b : Fixed) → 0 < length b.items → (draw n b).2 ≡ fine
draw_fine n b k = ground (arith, k)

pub draw_eof : (n : ℕ) (b : Fixed) → b.items ≡ [] → (draw n b).2 ≡ eof
draw_eof n b k = ground (arith, ap length k)

pub fetch_positive :
    (r : Pipe) (b : Fixed)
    → b.items ≡ []
    → 0 < b.limit
    → 0 < (if ltb (room b) (suc r.piece) then room b else suc r.piece)
fetch_positive r b h z = ground (arith, ap length h, z)

pub fetch_given :
    (r : Pipe) (b : Fixed) → (fetch r b).2 ≡ true → b.items ≡ [] → 0 < length (fetch r b).1.items
fetch_given r b h e =
    let k = if ltb (room b) (suc r.piece) then room b else suc r.piece in
    let some_bytes : 0 < length (take k r.bytes) = ground (arith, h) in
    omega (arith, length-append b.items (take k r.bytes), some_bytes)

pub fetch_alive :
    (r : Pipe) (b : Fixed)
    → 0 < length r.bytes
    → b.items ≡ []
    → 0 < b.limit
    → ((fetch r b).2 ≡ true) × Unit {0}
fetch_alive r b k e z =
    let n = if ltb (room b) (suc r.piece) then room b else suc r.piece in
    let some_bytes = take_some n r.bytes (fetch_positive r b e z) k in
    (ground (arith, some_bytes), tt)

abbrev pub Fixed-IsBuffer : IsBuffer PipeIo
Fixed-IsBuffer = record {
  contents = λ b. b.items;
  size = λ b. b.limit;
  new_contents = λ n. refl;
  new_size = λ n. refl;
  readable_lem = λ b. refl;
  write_contents = fill_contents;
  write_size = fill-size;
  write_err = fill-err;
  write_empty = fill_some;
  read_contents = λ n b. sym (take-append-drop n b.items);
  read_size = λ n b. refl;
  read_length = λ n b. length-take_bound n b.items;
  read_some = λ n b h k. (draw_fine n b k, take_some n b.items h k);
  read_eof = λ n b h k. draw_eof n b k;
}

abbrev pub Pipe-IsReader : IsReader PipeIo Fixed-IsBuffer
Pipe-IsReader = record {
  stream = λ r. r.bytes;
  alive = λ r. Unit {0};
  deadline_stream = λ t r. refl;
  deadline_alive = λ t r h. (refl, h);
  read_from_moves =
      λ r b. fetch_some-moves (if ltb (room b) (suc r.piece) then room b else suc r.piece) r b;
  read_from_some = λ r b h k. fetch_given r b h k;
  read_from_size = λ r b. refl;
  read_from_alive = λ r b h k e z. fetch_alive r b k e z;
}

abbrev pub Pipe-IsWriter : IsWriter PipeIo Fixed-IsBuffer
Pipe-IsWriter = record {
  sent = λ w. w.bytes;
  deadline_sent = λ t w. refl;
  clock_sent = λ w. refl;
  write_to_moves = push-moves;
  write_to_size = λ w b. refl;
  write_to_some = λ w b h k. omega (arith, length-drop (suc w.piece) b.items, k);
}
