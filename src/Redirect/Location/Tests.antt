-- ===== src/Redirect/Location/Tests.antt =====
-- A destination with a line break, and one with half a surrogate pair.
use posta.Shared.{◌≡◌, refl, ◌++◌, [], ◌∷◌, none, some}
use posta.Redirect.Location.{
  code_points, encode_destination_for_header, encode_chars, encode_char, percent_bytes, utf8,
  upper_digit, is_header_safe, is_header_safe_code_point,
}
use posta.Redirect.Location.Safety.{IsEncoded, encode_destination_for_header-IsEncoded}

opened : Unit {0}
unfolding encode_destination_for_header encode_chars encode_char percent_bytes utf8 upper_digit
    is_header_safe is_header_safe_code_point
opened = tt

encoded :
    encode_destination_for_header (code_points "https://a.b/\r\nx€")
    ≡ some (code_points "https://a.b/%0D%0Ax%E2%82%AC")
unfolding opened
encoded = refl

half : encode_destination_for_header (code_points "https://a.b/x" ++ 0xd800 ∷ []) ≡ none
unfolding opened
half = refl

encode_destination_for_header-IsEncoded_example :
    IsEncoded
      (code_points "https://a.b/\r\nx")
      (encode_destination_for_header (code_points "https://a.b/\r\nx"))
encode_destination_for_header-IsEncoded_example =
    encode_destination_for_header-IsEncoded (code_points "https://a.b/\r\nx")
