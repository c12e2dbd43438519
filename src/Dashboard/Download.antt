-- ===== src/Dashboard/Download.antt =====
-- internal/dashboard/dashboard.go: what Export sends, from the file's name and the events.
--
-- encoding/csv and encoding/json, Format and Sprintf, which the repository only calls, are `Writers`.
use glimt.Base.{ℕ, List, [], ◌∷◌, ◌++◌, map, Bytes, codes, same, if◌then◌else◌}
use glimt.Model.{Millionths}
use glimt.Query.Top.{ExportEvent}

pub record Writers : Type 0 where
  pub rfc3339 : ℕ → Bytes
  pub decimal : ℕ → Millionths → Bytes  -- %.<n>f
  pub csv : List (List Bytes) → Bytes
  pub json : List ExportEvent → Bytes  -- indented by two blanks

pub record File : Type 0 where
  pub content_type : Bytes
  pub disposition : Bytes
  pub body : Bytes

abbrev pub csv_header : List Bytes
csv_header =
    codes "Timestamp"
    ∷ codes "Type"
    ∷ codes "Name"
    ∷ codes "URL Path"
    ∷ codes "Page Title"
    ∷ codes "Hostname"
    ∷ codes "Referrer"
    ∷ codes "Browser"
    ∷ codes "OS"
    ∷ codes "Device"
    ∷ codes "Country"
    ∷ codes "Language"
    ∷ codes "LCP"
    ∷ codes "INP"
    ∷ codes "CLS"
    ∷ codes "TTFB"
    ∷ codes "Value"
    ∷ []

unfoldable pub csv_row : Writers → ExportEvent → List Bytes
csv_row w e =
    w.rfc3339 e.ts
    ∷ e.kind
    ∷ e.name
    ∷ e.url_path
    ∷ e.page_title
    ∷ e.hostname
    ∷ e.referrer
    ∷ e.browser
    ∷ e.os
    ∷ e.device
    ∷ e.country
    ∷ e.language
    ∷ w.decimal 0 e.lcp
    ∷ w.decimal 0 e.inp
    ∷ w.decimal 3 e.cls
    ∷ w.decimal 0 e.ttfb
    ∷ w.decimal 2 e.val
    ∷ []

abbrev attachment : Bytes → Bytes → Bytes
attachment name suffix = codes "attachment; filename=\"" ++ name ++ suffix ++ codes "\""

-- The end of Export; `format` is the parameter of the URL.
unfoldable pub export_file : Writers → Bytes → Bytes → List ExportEvent → File
unfolding csv_row
export_file w format name events =
    if same format (codes "json")
    then record {
      content_type = codes "application/json";
      disposition = attachment name (codes ".json");
      body = w.json events;
    }
    else record {
      content_type = codes "text/csv";
      disposition = attachment name (codes ".csv");
      body = w.csv (csv_header ∷ map (csv_row w) events);
    }
