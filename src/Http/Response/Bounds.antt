-- ===== src/Http/Response/Bounds.antt =====
-- The sizes of the buffers for messages.
use ti.Base.{
  ℕ, ◌+◌, ◌-◌, ◌≤◌, ◌<◌, ◌≡◌, ap, ◌∙◌, [], ◌∷◌, ◌++◌, arith, Bytes, codes, le→ltb_false, length,
  length-append, replicate,
}
use ti.Base.Process.{ok, after as then_do}
use ti.Base.Text.{length-digits, digits}
use ti.Http.Response.{
  msg_len, message, error_text, in_buffer, respond, header_len, header_text, max_mime_len,
}
use ti.Http.{System, Trace, sent, closed, accepted}

in_buffer_lem :
    {S : Type 0} (size : ℕ) (text : Bytes) (s : S)
    → length text < size
    → in_buffer size text s ≡ (ok (text ++ replicate (size - length text) 0), s)
unfolding in_buffer
in_buffer_lem size text s h = rw (le→ltb_false size (length text + 1) (omega arith))

length-message : (status_msg : Bytes) → length (message status_msg) ≡ msg_len status_msg
length-message status_msg = omega (
  arith,
  length-append status_msg (
      codes "\n"
      ++ (codes "Content-Type: text/plain\n"
          ++ (codes "Content-Length: 7\n" ++ (codes "Connection: close\n\n" ++ error_text)))),
)

-- Whatever the status: the message with its final 0 fills the buffer of `respond` to the last byte.
-- All of it is given to `send`, the 0 too, one byte more than the header says. Then the descriptor
-- is closed.
pub respond_lem :
    (sys : System) (status_msg : Bytes) (sock_fd : ℕ) (trace : Trace)
    → respond sys status_msg sock_fd trace ≡ (
      ok tt,
      (trace
            ++ sent sock_fd (accepted (sys.send trace sock_fd) (message status_msg ++ 0 ∷ [])) ∷ [])
          ++ closed sock_fd ∷ [],
    )
unfolding respond
respond_lem sys status_msg sock_fd trace =
    ap (then_do _) (
      in_buffer_lem (msg_len status_msg + 1) (message status_msg) trace
        (omega (arith, length-message status_msg)))
    ∙ ap
        (λ n. (
          ok tt,
          (trace
                ++ sent sock_fd
                    (accepted (sys.send trace sock_fd) (message status_msg ++ replicate n 0))
                  ∷ [])
              ++ closed sock_fd ∷ [],
        ))
        one_byte
  where
    one_byte : msg_len status_msg + 1 - length (message status_msg) ≡ 1
    one_byte = omega (arith, length-message status_msg)

pub length-header_text :
    (mime : Bytes) (size : ℕ)
    → length mime ≤ max_mime_len
    → length (header_text mime size) ≤ header_len
length-header_text mime size h = omega (
  arith,
  length-digits 19 size,
  length-append mime (
      codes "\n"
      ++ (codes "Connection: close\n"
          ++ (codes "Content-Length: " ++ (digits 19 size ++ codes "\n\n")))),
  length-append (digits 19 size) (codes "\n\n"),
)

-- The header for any size and any MIME type of at most MAX_MIME_LEN bytes fits into its buffer.
pub in_buffer-header_text :
    (mime : Bytes) (size : ℕ) (trace : Trace)
    → length mime ≤ max_mime_len
    → in_buffer (header_len + 1) (header_text mime size) trace ≡ (
      ok (header_text mime size ++ replicate (header_len + 1 - length (header_text mime size)) 0),
      trace,
    )
in_buffer-header_text mime size trace h =
    in_buffer_lem (header_len + 1) (header_text mime size) trace
      (omega (arith, length-header_text mime size h))
