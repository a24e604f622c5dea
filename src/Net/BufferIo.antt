-- ===== src/Net/BufferIo.antt =====
-- What net/session_io.go uses of gutils/buffer/bytes.FixedBuffer and of gnet's ConnReader and
-- ConnWriter, which are not part of the repository: the operations are a parameter, and what the
-- code relies on are the laws of IsBuffer, IsReader and IsWriter.
use gcluster.Common.{ℕ, ◌≤◌, ◌<◌, ◌≡◌, ◌⊎◌, Bool, true, [], ◌++◌, length, take}
use gcluster.Common.Int.{ℤ, pos}
use gcluster.Common.Bytes.{Bytes}

-- The error of a buffer's Read or Write: nil, io.EOF, ErrBufferFull, or another.
pub data BufErr : Type 0 where
  fine eof full broken : BufErr

-- A reader and a writer are the connection as the goroutine finds it, with what happens to it.
pub record BufferIo : Type 1 where
  pub Buffer : Type 0
  pub Reader : Type 0
  pub Writer : Type 0
  -- bytes.NewFixedBuffer, Readable
  pub new_buffer : ℤ → Buffer
  pub readable : Buffer → ℕ
  -- Write of a slice: how much of it is stored. Read into a slice of a length: what is read.
  pub write : Bytes → Buffer → Buffer × ℕ × BufErr
  pub read : ℕ → Buffer → Buffer × Bytes × BufErr
  -- ReadFrom and WriteTo, with whether the error is nil
  pub read_from : Reader → Buffer → Reader × Buffer × Bool
  pub write_to : Writer → Buffer → Writer × Buffer × Bool
  -- SetReadDeadline and SetWriteDeadline to a duration from now, with whether the error is nil
  pub set_read_deadline : ℤ → Reader → Reader × Bool
  pub set_write_deadline : ℤ → Writer → Writer × Bool
  -- time.Now
  pub clock : Writer → Writer × ℤ

-- A buffer is a FIFO of bytes of a fixed size.
pub record IsBuffer (B : BufferIo) : Type 0 where
  pub contents : B.Buffer → Bytes
  pub size : B.Buffer → ℕ
  pub new_contents : (n : ℕ) → contents (B.new_buffer (pos n)) ≡ []
  pub new_size : (n : ℕ) → size (B.new_buffer (pos n)) ≡ n
  pub readable_lem : (b : B.Buffer) → B.readable b ≡ length (contents b)
  pub write_contents :
      (p : Bytes) (b : B.Buffer) → contents (B.write p b).0 ≡ contents b ++ take (B.write p b).1 p
  pub write_size : (p : Bytes) (b : B.Buffer) → size (B.write p b).0 ≡ size b
  pub write_err :
      (p : Bytes) (b : B.Buffer)
      → (((B.write p b).2 ≡ fine) × ((B.write p b).1 ≡ length p))
        ⊎ (((B.write p b).2 ≡ full) × ((B.write p b).1 ≤ length p))
  pub write_empty :
      (p : Bytes) (b : B.Buffer) → 0 < size b → contents b ≡ [] → 0 < length p → 0 < (B.write p b).1
  pub read_contents :
      (n : ℕ) (b : B.Buffer) → contents b ≡ (B.read n b).1 ++ contents (B.read n b).0
  pub read_size : (n : ℕ) (b : B.Buffer) → size (B.read n b).0 ≡ size b
  pub read_length : (n : ℕ) (b : B.Buffer) → length (B.read n b).1 ≤ n
  pub read_some :
      (n : ℕ) (b : B.Buffer)
      → 0 < n
      → 0 < length (contents b)
      → ((B.read n b).2 ≡ fine) × (0 < length (B.read n b).1)
  pub read_eof : (n : ℕ) (b : B.Buffer) → 0 < n → contents b ≡ [] → (B.read n b).2 ≡ eof

-- A connection hands over, in their order, the bytes that arrive on it. `alive` says of it that no
-- call fails before all of them are read.
pub record IsReader (B : BufferIo) (F : IsBuffer B) : Type 1 where
  pub stream : B.Reader → Bytes
  pub alive : B.Reader → Type 0
  pub deadline_stream : (t : ℤ) (r : B.Reader) → stream (B.set_read_deadline t r).0 ≡ stream r
  pub deadline_alive :
      (t : ℤ) (r : B.Reader)
      → alive r
      → ((B.set_read_deadline t r).1 ≡ true) × alive (B.set_read_deadline t r).0
  pub read_from_moves :
      (r : B.Reader) (b : B.Buffer)
      → F.contents (B.read_from r b).1 ++ stream (B.read_from r b).0 ≡ F.contents b ++ stream r
  pub read_from_some :
      (r : B.Reader) (b : B.Buffer)
      → (B.read_from r b).2 ≡ true
      → F.contents b ≡ []
      → 0 < length (F.contents (B.read_from r b).1)
  pub read_from_size : (r : B.Reader) (b : B.Buffer) → F.size (B.read_from r b).1 ≡ F.size b
  pub read_from_alive :
      (r : B.Reader) (b : B.Buffer)
      → alive r
      → 0 < length (stream r)
      → F.contents b ≡ []
      → 0 < F.size b
      → ((B.read_from r b).2 ≡ true) × alive (B.read_from r b).0

-- A connection takes bytes in their order.
pub record IsWriter (B : BufferIo) (F : IsBuffer B) : Type 1 where
  pub sent : B.Writer → Bytes
  pub deadline_sent : (t : ℤ) (w : B.Writer) → sent (B.set_write_deadline t w).0 ≡ sent w
  pub clock_sent : (w : B.Writer) → sent (B.clock w).0 ≡ sent w
  pub write_to_moves :
      (w : B.Writer) (b : B.Buffer)
      → sent (B.write_to w b).0 ++ F.contents (B.write_to w b).1 ≡ sent w ++ F.contents b
  pub write_to_size : (w : B.Writer) (b : B.Buffer) → F.size (B.write_to w b).1 ≡ F.size b
  pub write_to_some :
      (w : B.Writer) (b : B.Buffer)
      → (B.write_to w b).2 ≡ true
      → 0 < length (F.contents b)
      → length (F.contents (B.write_to w b).1) < length (F.contents b)
