-- ===== src/Url/Tests.antt =====
-- Runs of the URL codec (src/util.cc) on small inputs.
use muqiu.Common.{◌≡◌, arith, true, [], ◌∷◌}
use muqiu.Url.Codec.{Bytes, url_encode, url_decode}
use muqiu.Url.RoundTrip.{url_decode-url_encode}

abbrev text : Bytes
text = b'a' ∷ b' ' ∷ b'%' ∷ b'+' ∷ 255 ∷ []

url_decode-url_encode_example : url_decode (url_encode text true) true ≡ text
url_decode-url_encode_example =
    url_decode-url_encode true text
      (omega arith, (omega arith, (omega arith, (omega arith, (omega arith, tt)))))
