-- ===== src/Pypi/Page.antt =====
-- internal/format/pypi/handler.go and proxy.go: the pages of the index, and the links of an upstream.
use packrune.Prelude.{
  ℕ, Option, none, some, List, [], ◌∷◌, ◌++◌, Bytes, codes, nat_eq, cut, cut_last, trim_prefix,
  is_seen, if◌then◌else◌,
}
use packrune.Repo.Tables.{Artifact}

-- html.EscapeString
abbrev escape_byte : ℕ → Bytes
escape_byte c =
    if nat_eq c b'&'
    then codes "&amp;"
    else if nat_eq c b'\''
    then codes "&#39;"
    else if nat_eq c b'<'
    then codes "&lt;"
    else if nat_eq c b'>'
    then codes "&gt;"
    else if nat_eq c b'"'
    then codes "&#34;"
    else c ∷ []

unfoldable pub escape_string : Bytes → Bytes
escape_string [] = []
escape_string (c ∷ s) = escape_byte c ++ escape_string s

abbrev page_start : Bytes
page_start = codes "<!DOCTYPE html><html><body>\n"

abbrev page_end : Bytes
page_end = codes "</body></html>\n"

unfoldable pub index_lines : List Bytes → Bytes
index_lines [] = page_end
index_lines (n ∷ ns) =
    codes "<a href=\""
    ++ (escape_string n
        ++ (codes "/\">" ++ (escape_string n ++ (codes "</a><br/>\n" ++ index_lines ns))))

-- The page of handleIndex
abbrev pub index_page : List Bytes → Bytes
index_page names = page_start ++ index_lines names

-- pathBase
unfoldable pub path_base : Bytes → Bytes
path_base p = elim (cut_last p (codes "/")) [ none ↦ p | some (dir, file) ↦ file ]

unfoldable pub package_lines : Bytes → List Artifact → Bytes
package_lines norm [] = page_end
package_lines norm (a ∷ arts) =
    let file = escape_string (path_base a.path) in
    codes "<a href=\"../../packages/"
    ++ (escape_string norm
        ++ (codes "/"
            ++ (file
                ++ (codes "#sha256="
                    ++ (escape_string (trim_prefix a.digest (codes "sha256:"))
                        ++ (codes "\">"
                            ++ (file ++ (codes "</a><br/>\n" ++ package_lines norm arts))))))))

-- The page of handlePackage
abbrev pub package_page : Bytes → List Artifact → Bytes
package_page norm arts = page_start ++ package_lines norm arts

-- A link of an upstream's page: the URL with its fragment, and the file.
abbrev pub Link : Type 0
Link = Bytes × Bytes

unfoldable pub fragment_of : Bytes → Bytes
fragment_of href = elim (cut href (codes "#")) [ none ↦ [] | some (url, f) ↦ b'#' ∷ f ]

abbrev before_amp : Bytes → Bytes
before_amp d = elim (cut d (codes "&")) [ none ↦ d | some (x, y) ↦ x ]

-- The digest that a fragment states.
unfoldable pub stated_digest : Bytes → Bytes
stated_digest fragment = elim (cut fragment (codes "sha256=")) [
  | none ↦ []
  | some (x, d) ↦ before_amp (codes "sha256:" ++ d)
]

unfoldable pub link_lines : Bytes → List Link → Bytes
link_lines norm [] = page_end
link_lines norm ((href, file) ∷ links) =
    codes "<a href=\"../../packages/"
    ++ (norm
        ++ (codes "/"
            ++ (file
                ++ (fragment_of href
                    ++ (codes "\">" ++ (file ++ (codes "</a><br/>\n" ++ link_lines norm links)))))))

-- The page of proxyFetchSimple
abbrev pub proxy_page : Bytes → List Link → Bytes
proxy_page norm links = page_start ++ link_lines norm links

abbrev add_name : Option (Bytes × Bytes) → List Bytes → List Bytes
add_name none names = names
add_name (some ([], file)) names = names
add_name (some (c ∷ n, file)) names = if is_seen (c ∷ n) names then names else names ++ (c ∷ n) ∷ []

-- allPackageNames, of the rows under "packages/"
unfoldable pub package_names : List Bytes → List Artifact → List Bytes
package_names names [] = names
package_names names (a ∷ arts) =
    package_names (add_name (cut (trim_prefix a.path (codes "packages/")) (codes "/")) names) arts
