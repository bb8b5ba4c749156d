-- ===== src/Chain/Buffer/Delivery.antt =====
-- What the response buffer holds back and what it lets through, over any calls of the upstream.
use rocksys.Base.{
  ℤ, ◌+◌, ◌<◌, ◌≤◌, true, false, List, [], ◌∷◌, ◌++◌, length, leb, Bytes, none, some, ◌≡◌, refl,
  sym, subst, ap, arith, Bool-cases, inl, inr, length-append,
}
use mathlib.Core.List.{append_assoc, append-nil}
use rocksys.Chain.Client.{Header, Client, write_header, write}
use rocksys.Chain.Buffer.{
  BufferWriter, new_buffer, buffer_header, buffer_write, flush_to_underlying, flushed,
  resp_buffer_limit,
}

-- The calls of the forwarding on the writer; `headers` is a change of the map that `Header` returns.
pub data Call : Type 0 where
  headers : (Header → Header) → Call
  heads : ℤ → Call
  writes : Bytes → Call

unfoldable pub call : BufferWriter → Call → BufferWriter
call b (headers f) = record b { header = f b.header }
call b (heads code) = buffer_header b code
call b (writes bytes) = buffer_write b bytes

unfoldable pub feed : BufferWriter → List Call → BufferWriter
feed b [] = b
feed b (c ∷ cs) = feed (call b c) cs

unfoldable pub bytes_of : Call → Bytes
bytes_of (headers f) = []
bytes_of (heads code) = []
bytes_of (writes bytes) = bytes

unfoldable pub all_bytes : List Call → Bytes
all_bytes [] = []
all_bytes (c ∷ cs) = bytes_of c ++ all_bytes cs

-- The buffer that holds back `bytes`, and the one that has let them through with the client's own
-- header.
abbrev holding : Client → ℤ → Bytes → Header → BufferWriter
holding w code bytes h = record {
  underlying = w;
  header = h;
  status = code;
  body = bytes;
  truncated = false;
  written = true;
  buffering = true;
}

abbrev passing : Client → ℤ → Bytes → Header → BufferWriter
passing w code bytes h = record {
  underlying = record w { status = some code; sent = w.header; body = w.body ++ bytes };
  header = h;
  status = code;
  body = [];
  truncated = true;
  written = true;
  buffering = false;
}

pub data Delivery (w : Client) (code : ℤ) (bytes : Bytes) (b : BufferWriter) : Type 0 where
  held :
      (h : Header)
      → b ≡ holding w code bytes h
      → length bytes ≤ resp_buffer_limit
      → Delivery w code bytes b
  passed :
      (h : Header)
      → b ≡ passing w code bytes h
      → resp_buffer_limit < length bytes
      → Delivery w code bytes b

module _ (w : Client) (code : ℤ) (fresh : w.status ≡ none) where
  sends : write_header w code ≡ record w { status = some code; sent = w.header }
  unfolding write_header
  sends = rw (fresh, write_header) refl

  flushed-holding :
      (bytes more : Bytes) (h : Header)
      → flush_to_underlying (holding w code bytes h) more ≡ passing w code (bytes ++ more) h
  unfolding flush_to_underlying flushed write write_header
  flushed-holding [] more h =
      ap (λ (v : Client). record (passing w code more h) { underlying = v })
        (subst
          (λ v.
            write v more ≡ record w { status = some code; sent = w.header; body = w.body ++ more })
          (sym sends) refl)
  flushed-holding (x ∷ bytes) more h =
      ap (λ (v : Client). record (passing w code ((x ∷ bytes) ++ more) h) { underlying = v })
        (subst
          (λ v. write (write v (x ∷ bytes)) more ≡ record w {
            status = some code;
            sent = w.header;
            body = w.body ++ ((x ∷ bytes) ++ more);
          })
          (sym sends)
          (ap (λ s. record w { status = some code; sent = w.header; body = s })
            (append_assoc w.body (x ∷ bytes) more)))

  write-holding :
      (bytes more : Bytes) (h : Header)
      → length bytes ≤ resp_buffer_limit
      → Delivery w code (bytes ++ more) (buffer_write (holding w code bytes h) more)
  unfolding buffer_write
  write-holding bytes more h l =
      elim (Bool-cases (leb (length bytes + length more) resp_buffer_limit)) [
        | inl e ↦ rw e (held h refl (ground (arith, length-append bytes more, e)))
        | inr e ↦
            rw e (
              passed h (flushed-holding bytes more h) (ground (arith, length-append bytes more, e)))
      ]

  write-passing :
      (bytes more : Bytes) (h : Header)
      → buffer_write (passing w code bytes h) more ≡ passing w code (bytes ++ more) h
  unfolding buffer_write write write_header
  write-passing bytes more h =
      ap
        (λ s. record (passing w code bytes h) {
          underlying = record w { status = some code; sent = w.header; body = s };
        })
        (append_assoc w.body bytes more)

  longer :
      (bytes more : Bytes)
      → resp_buffer_limit < length bytes
      → resp_buffer_limit < length (bytes ++ more)
  longer bytes more l = omega (arith, length-append bytes more)

  call-Delivery :
      (bytes : Bytes) (b : BufferWriter) (c : Call)
      → Delivery w code bytes b
      → Delivery w code (bytes ++ bytes_of c) (call b c)
  unfolding call bytes_of buffer_header
  call-Delivery bytes b (headers f) (held h e l) = rw (e, append-nil) (held (f h) refl l)
  call-Delivery bytes b (headers f) (passed h e l) = rw (e, append-nil) (passed (f h) refl l)
  call-Delivery bytes b (heads c) (held h e l) = rw (e, append-nil) (held h refl l)
  call-Delivery bytes b (heads c) (passed h e l) = rw (e, append-nil) (passed h refl l)
  call-Delivery bytes b (writes more) (held h e l) = rw e (write-holding bytes more h l)
  call-Delivery bytes b (writes more) (passed h e l) =
      rw e (passed h (write-passing bytes more h) (longer bytes more l))

  feed-Delivery :
      (bytes : Bytes) (b : BufferWriter) (cs : List Call)
      → Delivery w code bytes b
      → Delivery w code (bytes ++ all_bytes cs) (feed b cs)
  unfolding feed all_bytes
  feed-Delivery bytes b [] d = rw append-nil d
  feed-Delivery bytes b (c ∷ cs) d =
      subst (λ s. Delivery w code s (feed (call b c) cs))
        (append_assoc bytes (bytes_of c) (all_bytes cs))
        (feed-Delivery (bytes ++ bytes_of c) (call b c) cs (call-Delivery bytes b c d))

  -- For a client to whom nothing has been sent, and a forwarding that sets headers and
  -- writes its status first: while
  -- all the bytes together fit into the limit the client is untouched and the buffer holds exactly
  -- these bytes and the first status; beyond the limit the buffer is empty and the client has got the
  -- first status and exactly these bytes in order, but with the header that the client's writer had
  -- before, whatever header the forwarding has set.
  pub feed-delivers :
      (f : Header → Header) (cs : List Call)
      → Delivery w code (all_bytes cs) (feed (new_buffer w) (headers f ∷ heads code ∷ cs))
  unfolding feed call new_buffer buffer_header
  feed-delivers f cs =
      feed-Delivery [] (holding w code [] (f [])) cs (held (f []) refl (ground arith))
