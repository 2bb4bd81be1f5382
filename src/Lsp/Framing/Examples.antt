-- ===== src/Lsp/Framing/Examples.antt =====
-- Messages on a stream, and the theorem about them.
use codesight.Prelude.{◌≡◌, refl, ◌++◌, arith}
use codesight.Text.{str}
use codesight.Text.Unicode.{ascii}
use codesight.Lsp.Framing.{
  message, read_error, end_of_stream, malformed_header, negative_length, missing_length,
  read_lsp_message, write_lsp_message,
}
use codesight.Lsp.Framing.RoundTrip.{read_lsp_message-write_lsp_message}

-- The last length counts, and other headers are passed over.
last_length :
    read_lsp_message ascii (str "CONTENT-LENGTH: 9\r\nX: y\nContent-Length: 2\n\r\nabc")
    ≡ message (str "ab") (str "c")
unfolding read_lsp_message
last_length = refl

failures :
    (read_lsp_message ascii (str "Content-Length: -1\r\n\r\n")
      ≡ read_error (negative_length (str "-1")))
    × (read_lsp_message ascii (str "X\r\n") ≡ read_error (malformed_header (str "X")))
    × (read_lsp_message ascii (str "\r\n") ≡ read_error missing_length)
    × (read_lsp_message ascii (str "Content-Length: 3\r\n\r\nab") ≡ read_error end_of_stream)
unfolding read_lsp_message
failures = (refl, refl, refl, refl)

lower_name : ascii.to_lower (str "Content-Length") ≡ str "content-length"
lower_name = refl

read_lsp_message-write_lsp_message_example :
    read_lsp_message ascii (write_lsp_message (str "{}") ++ str "next")
    ≡ message (str "{}") (str "next")
read_lsp_message-write_lsp_message_example =
    read_lsp_message-write_lsp_message ascii (str "{}") (str "next") lower_name (omega arith)
