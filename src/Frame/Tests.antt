-- ===== src/Frame/Tests.antt =====
-- The framing at concrete bytes.
use voltron_ocpp_protocols.Common.{
  ℕ, ◌+◌, ◌≤◌, ◌≡◌, refl, true, List, [], ◌∷◌, ◌++◌, some, arith, length,
}
use voltron_ocpp_protocols.Frame.{
  Frame, extract_frame, build_frame, read_mask, unmask, payload_length, split_at, unmask_from,
  byte_at, length_bytes,
}
use voltron_ocpp_protocols.Frame.RoundTrip.{extract_frame-build_frame}
use voltron_ocpp_protocols.Frame.Masked.{client_frame, extract_frame-client_frame}
use voltron_ocpp_protocols.Frame.Stream.{
  frames, then_frames, frames-append, extract_frame-consumes, extract_frame-append,
}

-- "Hello", unmasked and masked, from RFC 6455, 5.7.
abbrev hello : List ℕ
hello = b'H' ∷ b'e' ∷ b'l' ∷ b'l' ∷ b'o' ∷ []

abbrev hello_masked : List ℕ
hello_masked = 0x81 ∷ 0x85 ∷ 0x37 ∷ 0xfa ∷ 0x21 ∷ 0x3d ∷ 0x7f ∷ 0x9f ∷ 0x4d ∷ 0x51 ∷ 0x58 ∷ []

abbrev hello_frame : Frame
hello_frame = record { fin = true; opcode = 1; payload = hello; remaining = [] }

hello_masked_read : extract_frame hello_masked ≡ some hello_frame
unfolding extract_frame payload_length read_mask split_at unmask unmask_from byte_at
hello_masked_read = refl

hello_written : build_frame 1 hello ≡ 0x81 ∷ 0x05 ∷ hello
unfolding build_frame length_bytes
hello_written = refl

extract_frame-build_frame_example :
    extract_frame (build_frame 10 hello ++ hello)
    ≡ some (record { fin = true; opcode = 10; payload = hello; remaining = hello })
extract_frame-build_frame_example =
    extract_frame-build_frame 10 hello hello (omega arith) (omega arith)

extract_frame-client_frame_example :
    extract_frame (client_frame 1 0x37 0xfa 0x21 0x3d hello ++ hello_masked)
    ≡ some (record { fin = true; opcode = 1; payload = hello; remaining = hello_masked })
extract_frame-client_frame_example =
    extract_frame-client_frame 1 0x37 0xfa 0x21 0x3d hello hello_masked (omega arith) (omega arith)
      (omega arith) (omega arith)

extract_frame-consumes_example :
    (used : List ℕ) × (hello_masked ≡ used ++ []) × (2 + length hello ≤ length used)
extract_frame-consumes_example =
    extract_frame-consumes hello_masked {f = hello_frame} hello_masked_read

extract_frame-append_example :
    extract_frame (hello_masked ++ hello) ≡ some (record hello_frame { remaining = hello })
extract_frame-append_example =
    extract_frame-append hello_masked hello {f = hello_frame} hello_masked_read

frames-append_example :
    frames (hello_masked ++ hello_masked) ≡ then_frames (frames hello_masked) hello_masked
frames-append_example = frames-append hello_masked hello_masked
