-- ===== src/Tests/Sites.antt =====
-- internal/sites/sites.go: two websites.
use glimt.Base.{
  true, false, some, [], ◌∷◌, ◌≡◌, ◌≢◌, inl, refl, arith, Bytes, codes, All, same, same_iff,
  is_empty,
}
use glimt.Model.{Site}
use glimt.Store.Tables.{Db, Website, empty_db}
use glimt.Store.Sql.{ok, sound, query, exec, insert_checked}
use glimt.Sites.{
  Registry, registry_of, site_of, find_collect, find_script, find_share, delete, set_public,
  regen_tokens, reload, add_rows, add_site, order_by_name, insert_by_name, bytes_less, get,
  update_site, set_tokens, has_id, clashes,
}
use glimt.Sites.Mirror.{IsUnique, find_collect_complete}
use glimt.Sites.Writes.{delete_revokes, regen_revokes}

abbrev shop : Website
shop = record {
  id = 1;
  uuid = codes "u1";
  name = codes "shop";
  domain = codes "shop.se";
  api_key_hash = [];
  script_token = codes "s1";
  collect_token = codes "c1";
  public = true;
  share_token = codes "t1";
  created_at = 0;
}

abbrev blog : Website
blog = record shop {
  id = 2;
  uuid = codes "u2";
  name = codes "blog";
  script_token = codes "s2";
  collect_token = codes "c2";
  share_token = [];
}

abbrev db : Db
db = record empty_db { websites = shop ∷ blog ∷ [] }

apart : (a b : Bytes) → same a b ≡ false → a ≢ b
apart a b h e = ground (arith, same_iff a b)

two-IsUnique : IsUnique db.websites
unfolding same
two-IsUnique = record {
  at = (
    (λ e. refl, (λ e. absurd (apart (codes "c1") (codes "c2") refl e), tt)),
    ((λ e. absurd (apart (codes "c2") (codes "c1") refl e), (λ e. refl, tt)), tt),
  );
}

find_collect_complete_example :
    All
      (λ row. find_collect (registry_of db.websites) row.collect_token ≡ some (site_of row))
      db.websites
find_collect_complete_example = find_collect_complete db.websites two-IsUnique

abbrev without_shop : Registry
without_shop = registry_of (blog ∷ [])

deleted : (delete 1 (sound db)).0 ≡ ok without_shop
unfolding delete reload query exec
deleted = refl

blog_found : find_collect without_shop (codes "c2") ≡ some (site_of blog)
unfolding find_collect registry_of add_rows add_site order_by_name insert_by_name get same is_empty
blog_found = refl

abbrev blog_site : Site
blog_site = site_of blog

delete_revokes_example : blog_site.id ≢ 1
delete_revokes_example =
    delete_revokes 1 1 (sound db) without_shop (codes "c2") blog_site deleted (inl blog_found)

abbrev hidden_shop : Website
hidden_shop = record shop { public = false }

abbrev with_hidden : Registry
with_hidden = registry_of (hidden_shop ∷ blog ∷ [])

hidden : (set_public 1 false (codes "f") (sound db)).0 ≡ ok with_hidden
unfolding set_public reload query exec update_site
hidden = refl

hidden_found : find_share with_hidden (codes "t1") ≡ some (site_of hidden_shop)
unfolding find_share registry_of add_rows add_site order_by_name insert_by_name get same is_empty
    bytes_less
hidden_found = refl

abbrev hidden_site : Site
hidden_site = site_of hidden_shop

one : hidden_site.id ≡ 1
unfolding site_of
one = refl

abbrev renewed_shop : Website
renewed_shop = record shop { script_token = codes "s9"; collect_token = codes "c9" }

abbrev renewed : Registry
renewed = registry_of (renewed_shop ∷ blog ∷ [])

regenerated : (regen_tokens 1 (codes "s9") (codes "c9") (sound db)).0 ≡ ok renewed
unfolding regen_tokens insert_checked set_tokens clashes has_id reload query update_site same
regenerated = refl

abbrev renewed_site : Site
renewed_site = site_of renewed_shop

renewed_one : renewed_site.id ≡ 1
unfolding site_of
renewed_one = refl

regen_revokes_example :
    (find_collect renewed (codes "c1") ≡ some renewed_site → codes "c1" ≡ codes "c9")
    × (find_script renewed (codes "c1") ≡ some renewed_site → codes "c1" ≡ codes "s9")
regen_revokes_example =
    regen_revokes 1 (codes "s9") (codes "c9") (sound db) renewed (codes "c1") renewed_site
      regenerated renewed_one
