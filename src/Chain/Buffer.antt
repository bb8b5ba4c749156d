-- ===== src/Chain/Buffer.antt =====
-- internal/chain/adapter.go: `respBufferWriter`, the buffer between the upstream and the client.
pub mod Delivery
use rocksys.Base.{
  ℕ, ℤ, pos, ◌+◌, Bool, true, false, List, [], ◌∷◌, ◌++◌, length, leb, Bytes, is_nil, if◌then◌else◌,
}
use rocksys.Chain.Client.{Header, Client, write_header, write}

-- 4 << 20
abbrev pub resp_buffer_limit : ℕ
resp_buffer_limit = 4194304

pub record BufferWriter : Type 0 where
  pub underlying : Client
  pub header : Header
  pub status : ℤ
  pub body : Bytes
  pub truncated : Bool
  pub written : Bool
  pub buffering : Bool

unfoldable pub new_buffer : Client → BufferWriter
new_buffer w = record {
  underlying = w;
  header = [];
  status = pos 0;
  body = [];
  truncated = false;
  written = false;
  buffering = true;
}

unfoldable pub buffer_header : BufferWriter → ℤ → BufferWriter
unfolding write_header
buffer_header b code =
    if b.written
    then b
    else (let b' = record b { written = true; status = code } in
        if b.buffering then b' else record b' { underlying = write_header b.underlying code })

-- The calls of `flushToUnderlying` on the writer below.
unfoldable pub flushed : BufferWriter → Bytes → Client
unfolding write_header write
flushed b chunk =
    let w = if b.written then write_header b.underlying b.status else b.underlying in
    let w' = if is_nil b.body then w else write w b.body in write w' chunk

unfoldable pub flush_to_underlying : BufferWriter → Bytes → BufferWriter
unfolding flushed
flush_to_underlying b chunk = record b {
  truncated = true;
  buffering = false;
  body = [];
  underlying = flushed b chunk;
}

unfoldable pub buffer_write : BufferWriter → Bytes → BufferWriter
unfolding flush_to_underlying write
buffer_write b chunk =
    if b.buffering
    then (if leb (length b.body + length chunk) resp_buffer_limit
        then record b { body = b.body ++ chunk }
        else flush_to_underlying b chunk)
    else record b { underlying = write b.underlying chunk }
