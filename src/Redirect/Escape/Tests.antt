-- ===== src/Redirect/Escape/Tests.antt =====
-- A script tag is shown as text.
use posta.Shared.{◌≡◌, refl, true, ◌≤◌}
use posta.Shared.Chars.{every}
use posta.Shared.Text.{units, utf16_length}
use posta.Redirect.Escape.{
  max_escaped_html_length, truncate_at_code_point_boundary, escape_entity, escape_chars,
  escape_html,
}
use posta.Redirect.Escape.Safety.{is_plain, escape_html-IsPlain}

escape_html-script : escape_html "<b a='&'>" ≡ "&lt;b a=&#x27;&amp;&#x27;&gt;"
unfolding escape_html escape_chars escape_entity truncate_at_code_point_boundary utf16_length units
escape_html-script = refl

escape_html-IsPlain_example :
    (every is_plain (escape_html "</p>") ≡ true)
    × (utf16_length (escape_html "</p>") ≤ max_escaped_html_length)
escape_html-IsPlain_example = escape_html-IsPlain "</p>"
