-- ===== src/Pages.antt =====
-- packages/openauth/src/ui/forms.ts: the pages that the methods render.
pub mod Escaped
pub mod Styles
use openauth.Prelude.{
  ℕ, String, Bool, true, false, Option, none, some, List, [], ◌∷◌, ◌<>◌, ◌==◌, eqb, if◌then◌else◌,
  get_or_else, join,
}
use openauth.Pages.Styles.{base_styles}
use Prim.Native.Char.{Char, code}

-- the callback of `s.replace`
abbrev pub escaped : Char → String
escaped c =
    if eqb (code c) 38
    then "&amp;"
    else if eqb (code c) 60
    then "&lt;"
    else if eqb (code c) 62
    then "&gt;"
    else if eqb (code c) 34
    then "&quot;"
    else if eqb (code c) 39
    then "&#39;"
    else String.◌∷◌ c ""

unfoldable pub escape_html : String → String
escape_html String.[] = ""
escape_html (String.◌∷◌ c s) = escaped c <> escape_html s

-- `<!doctype html>` and the lines up to `<main>`, around the escaped title and the styles
html_page : String → String → String
unfolding escape_html
html_page title body = join "\n" (
    "<!doctype html>"
    ∷ "<html lang=\"en\">"
    ∷ "<head>"
    ∷ "  <meta charset=\"utf-8\">"
    ∷ "  <meta name=\"viewport\" content=\"width=device-width, initial-scale=1\">"
    ∷ ("  <title>" <> (escape_html title <> "</title>"))
    ∷ ("  <style>" <> (base_styles <> "</style>"))
    ∷ "</head>"
    ∷ "<body>"
    ∷ ("  <main>" <> (body <> "</main>"))
    ∷ "</body>"
    ∷ "</html>"
    ∷ [])

pub record FormField : Type 0 where
  pub name : String
  pub label : String
  pub type : Option String
  pub value : Option String
  pub required : Bool
  pub autocomplete : Option String
  pub inputmode : Option String

pub record FormOptions : Type 0 where
  pub title : String
  pub action : String
  pub fields : List FormField
  pub submit : String
  pub error : Option String
  pub hidden : List (String × String)

-- `v ? name="..." : ""`
html_attribute : String → Option String → String
unfolding escape_html
html_attribute name none = ""
html_attribute name (some v) = if v == "" then "" else name <> ("=\"" <> (escape_html v <> "\""))

error_html : Option String → String
unfolding escape_html
error_html none = ""
error_html (some e) = if e == "" then "" else "<p class=\"error\">" <> (escape_html e <> "</p>")

hidden_html : List (String × String) → String
unfolding escape_html
hidden_html [] = ""
hidden_html ((k, v) ∷ rest) =
    "<input type=\"hidden\" name=\""
    <> (escape_html k <> ("\" value=\"" <> (escape_html v <> ("\">" <> hidden_html rest))))

field_html : FormField → String
unfolding escape_html html_attribute
field_html f = join "\n" (
    ("<label>" <> escape_html f.label)
    ∷ "<input"
    ∷ ("  name=\"" <> (escape_html f.name <> "\""))
    ∷ ("  type=\"" <> (get_or_else f.type "text" <> "\""))
    ∷ ("  value=\"" <> (escape_html (get_or_else f.value "") <> "\""))
    ∷ ("  " <> (if f.required then "required" else ""))
    ∷ ("  " <> html_attribute "autocomplete" f.autocomplete)
    ∷ ("  " <> html_attribute "inputmode" f.inputmode)
    ∷ "></label>"
    ∷ [])

fields_html : List FormField → String
unfolding field_html
fields_html [] = ""
fields_html (f ∷ fs) = field_html f <> fields_html fs

unfoldable pub render_form : FormOptions → String
unfolding html_page escape_html error_html hidden_html fields_html
render_form opts = html_page opts.title (
    "<h1>"
    <> (escape_html opts.title
        <> ("</h1>"
            <> (error_html opts.error
                <> ("<form method=\"POST\" action=\""
                    <> (escape_html opts.action
                        <> ("\">"
                            <> (hidden_html opts.hidden
                                <> (fields_html opts.fields
                                    <> ("<button type=\"submit\">"
                                        <> (escape_html opts.submit <> "</button></form>")))))))))))
