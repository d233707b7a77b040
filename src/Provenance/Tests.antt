-- ===== src/Provenance/Tests.antt =====
-- A macro and a function.
use fragma.Prelude.{◌≡◌, refl, List, [], ◌∷◌, ok, codes, map}
use fragma.Provenance.Scan.{Text, find_part, number, first_start}
use fragma.Provenance.Lex.{Token, c, pp, boundary, lex, tokenize}
use fragma.Provenance.Extract.{Function, extract_function}
use fragma.Provenance.Extract.Part.{IsExtracted, extract_function-IsExtracted}
use fragma.Provenance.Lex.Slices.{IsTokenized, lex-IsTokenized}

abbrev small_source : Text
small_source = codes "#define Z(x) x\nint f() { return 1; } // end"

abbrev small_words : List Text
small_words = map codes (
    "<pp-start>" ∷ "define" ∷ "Z" ∷ "<macro-function>" ∷ "(" ∷ "x" ∷ ")" ∷ "x" ∷ "<pp-end>" ∷ "int"
    ∷ "f" ∷ "(" ∷ ")" ∷ "{" ∷ "return" ∷ "1" ∷ ";" ∷ "}" ∷ [])

tokenize-small_source : tokenize small_source ≡ ok small_words
unfolding tokenize number first_start find_part
tokenize-small_source = refl

abbrev two_lines : Text
two_lines = codes "#x\ny"

abbrev two_lines_tokens : List Token
two_lines_tokens =
    record { value = codes "<pp-start>"; kind = boundary; line = 1; start = 0; end = 1 }
    ∷ record { value = codes "x"; kind = pp; line = 1; start = 1; end = 2 }
    ∷ record { value = codes "<pp-end>"; kind = boundary; line = 1; start = 2; end = 3 }
    ∷ record { value = codes "y"; kind = c; line = 2; start = 3; end = 4 }
    ∷ []

lex-two_lines : lex two_lines ≡ ok two_lines_tokens
unfolding lex
lex-two_lines = refl

lex-IsTokenized_example : IsTokenized two_lines two_lines_tokens
lex-IsTokenized_example = lex-IsTokenized two_lines lex-two_lines

abbrev function_source : Text
function_source = codes "int g;\nint f() { return g; }"

abbrev found_function : Function
found_function = record {
  name = codes "f";
  tokens = map codes ("f" ∷ "(" ∷ ")" ∷ "{" ∷ "return" ∷ "g" ∷ ";" ∷ "}" ∷ []);
  declaration_prefix = codes "int" ∷ [];
  line = 2;
}

extract-found_function : extract_function function_source (codes "f") ≡ ok found_function
unfolding extract_function lex number first_start find_part
extract-found_function = refl

extract_function-IsExtracted_example : IsExtracted function_source (codes "f") found_function
extract_function-IsExtracted_example =
    extract_function-IsExtracted function_source (codes "f") extract-found_function
