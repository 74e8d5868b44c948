-- ===== src/Launchd/Xml.antt =====
-- engine.go, `xmlText`, with what it uses of Go's package encoding/xml.
use Prim.Native.Char.{Char, code}
use Prim.Native.String.{[], ◌∷◌}
use home_stack.Prelude.{ℕ, Bool, ◌&&◌, ◌||◌, String, ◌<>◌, leb, eqb, if◌then◌else◌}

-- The characters of an XML document.
unfoldable pub is_xml_char : ℕ → Bool
is_xml_char c =
    eqb c 9
    || eqb c 10
    || eqb c 13
    || (leb 32 c && leb c 55295)
    || (leb 57344 c && leb c 65533)
    || leb 65536 c

-- `xml.EscapeText` on one character.
abbrev pub escape_char : Char → String
escape_char c =
    if eqb (code c) 34
    then "&#34;"
    else if eqb (code c) 39
    then "&#39;"
    else if eqb (code c) 38
    then "&amp;"
    else if eqb (code c) 60
    then "&lt;"
    else if eqb (code c) 62
    then "&gt;"
    else if eqb (code c) 9
    then "&#x9;"
    else if eqb (code c) 10
    then "&#xA;"
    else if eqb (code c) 13
    then "&#xD;"
    else if is_xml_char (code c)
    then c ∷ ""
    else "�"

unfoldable pub xml_text : String → String
xml_text [] = ""
xml_text (c ∷ s) = escape_char c <> xml_text s
