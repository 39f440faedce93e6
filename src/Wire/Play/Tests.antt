-- ===== src/Wire/Play/Tests.antt =====
-- Frames and handshakes written out, and the theorems at them.
use kuula.Prelude.{◌≡◌, ◌≤◌, refl, arith, true, List, [], ◌∷◌, ◌++◌, map}
use kuula.Prelude.Bytes.{Bytes, AreBytes, codes, from_be}
use kuula.Prelude.Utf8.{is_utf8, from_utf8}
use kuula.Prelude.Result.{ok}
use kuula.Wire.Play.{
  Frame, ping, text, bye, inbound, ended, lost, encode, read_frames, frame_header, frame_body,
  check_text_len,
}
use kuula.Wire.Play.RoundTrip.{IsFrame}
use kuula.Wire.Play.Strict.{frame_header-bound, encode-frame_body}
use kuula.Wire.Play.Stream.{
  Ends, IsSession, sent, read_frames-Ends, read_frames-sent, read_frames-lost,
}

abbrev hello : Frame
hello = text (codes "hello")

hello_utf8 : is_utf8 (codes "hello") ≡ true
unfolding is_utf8
hello_utf8 = refl

hello-IsFrame : IsFrame hello
hello-IsFrame = (omega arith, omega arith, hello_utf8)

abbrev five : Bytes
five = 0 ∷ 0 ∷ 0 ∷ 5 ∷ []

hello_header : frame_header (3 ∷ five) ≡ ok (3, 5)
unfolding frame_header check_text_len from_be
hello_header = refl

frame_header-bound_example : 5 ≤ 1024
frame_header-bound_example = frame_header-bound (3 ∷ five) 3 5 hello_header

hello_body : frame_body 3 (codes "hello") ≡ ok hello
unfolding frame_body from_utf8 is_utf8
hello_body = refl

five_bytes : AreBytes five
five_bytes = (omega arith, (omega arith, (omega arith, (omega arith, tt))))

hello_bytes : AreBytes (codes "hello")
hello_bytes = (omega arith, (omega arith, (omega arith, (omega arith, (omega arith, tt)))))

encode-frame_body_example : encode hello ≡ ok (3 ∷ (five ++ codes "hello"))
encode-frame_body_example =
    encode-frame_body 3 five (codes "hello") 5 hello refl five_bytes hello_bytes hello_header refl
      hello_body

abbrev talk : List Frame
talk = hello ∷ ping 7 ∷ []

talk-IsSession : IsSession talk
talk-IsSession = ((hello-IsFrame, refl), ((omega arith, refl), tt))

read_frames-sent_example :
    read_frames (sent talk ++ (sent (bye ∷ []) ++ codes "junk"))
    ≡ map inbound talk ++ inbound bye ∷ []
read_frames-sent_example = read_frames-sent talk (codes "junk") talk-IsSession

read_frames-lost_example : read_frames (sent talk) ≡ map inbound talk ++ ended lost ∷ []
read_frames-lost_example = read_frames-lost talk talk-IsSession

read_frames-Ends_example : Ends (read_frames (codes "not a frame"))
read_frames-Ends_example = read_frames-Ends (codes "not a frame")
