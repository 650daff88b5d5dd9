-- ===== src/Docs.antt =====
-- docs/build_site.py: the pages of the documentation site. The package `markdown`, the two regular
-- expressions, the order of paths and the text of the style sheet are parameters; the output folder is
-- a dict from the names of its files to their texts.
use bass_platform.Base.{
  String, Bool, Option, none, some, List, [], ◌∷◌, ◌++◌, Dict, insert, map, concat, sort_by,
}

pub record Tools : Type 0 where
  -- `md.reset()` and `md.convert(text)`
  pub convert : String → String
  -- The `re.sub` of the links between chapters.
  pub rewrite_links : String → String
  -- The group of the first heading, stripped, if there is one.
  pub heading : String → Option String
  -- The order of the paths of two chapters, by their stems.
  pub path_first : String → String → Bool
  pub css : String

module _ (tools : Tools) where
  -- `PAGE.format(title=title, css=CSS, body=body)`
  abbrev pub page : String → String → String
  page title body = concat (
      "<!doctype html><html lang=\"en\"><head><meta charset=\"utf-8\">\n"
      ∷ "<meta name=\"viewport\" content=\"width=device-width,initial-scale=1\">\n" ∷ "<title>"
      ∷ title ∷ " · Bass</title><style>" ∷ tools.css
      ∷ "</style></head>\n<body><main><div class=\"nav\"><a href=\"index.html\">← Bass docs</a></div>"
      ∷ body ∷ "</main></body></html>" ∷ [])

  -- `_title`
  abbrev pub title_of : String → String → String
  title_of text fallback = elim (tools.heading text) [ none ↦ fallback | some title ↦ title ]

  -- The loop over the chapters, each a stem and a text, on the files that are written.
  unfoldable pub build_pages :
      List (String × String) → Dict String → List (String × String) × Dict String
  build_pages [] files = ([], files)
  build_pages ((stem, text) ∷ rest) files =
      let title = title_of text stem in
      let body = tools.rewrite_links (tools.convert text) in
      let (pages, after) =
        build_pages rest (insert (concat (stem ∷ ".html" ∷ [])) (page title body) files) in
      ((stem, title) ∷ pages, after)

  abbrev pub item : String × String → String
  item (name, title) = concat ("<li><a href=\"" ∷ name ∷ ".html\">" ∷ title ∷ "</a></li>" ∷ [])

  abbrev pub diagrams_item : Option String → String
  diagrams_item none = ""
  diagrams_item (some _) = "<li><a href=\"diagrams.html\">Architecture diagrams</a></li>"

  abbrev pub copy_diagrams : Option String → Dict String → Dict String
  copy_diagrams none files = files
  copy_diagrams (some text) files = insert "diagrams.html" text files

  abbrev pub index : String → String
  index items = concat (
      "<h1>Bass — Documentation</h1>"
      ∷ "<p>Durable, multi-tenant AI automation platform. Chapters:</p><ul>" ∷ items ∷ "</ul>" ∷ [])

  -- `build`, from the chapters and the text of `diagrams.html`, if it is there
  unfoldable pub build :
      List (String × String) → Option String → Dict String → List (String × String) × Dict String
  unfolding build_pages
  build chapters diagrams files =
      let (pages, written) =
        build_pages (sort_by (λ (a b : String × String). tools.path_first a.0 b.0) chapters)
          files in
      let items = concat (map item pages ++ diagrams_item diagrams ∷ []) in
      (
        pages,
        insert "index.html" (page "Documentation" (index items)) (copy_diagrams diagrams written),
      )
