-- ===== src/Tests/Forms.antt =====
-- Forms of the pages: organisation slugs and questions before a submission.
use caslink.Prelude.{
  ℕ, Text, codes, true, false, List, [], ◌∷◌, ◌≡◌, ◌≢◌, ◌≤◌, ◌<◌, ◌↔◌, ◌⊎◌, refl, arith, Option,
  none, some, length, replicate, suc, or_else,
}
use caslink.Platform.{ascii_platform}
use caslink.Blocklist.{username_blocklist}
use caslink.Slug.{slugify, slug_body}
use caslink.OrgSlug.{ascii_text, validate_org_slug, find_reserved}
use caslink.OrgSlug.Legal.{IsLegal, validate_org_slug_iff}
use caslink.OrgSlug.Agreement.{validate_org_slug-slugify}
use caslink.Confirm.{Engine, start, confirm, button, user_submit, close, run}
use caslink.Confirm.Modern.{modern, Keeps, fresh, promise_run, promise_step, run-Keeps}

abbrev lower : Text → Text
lower = ascii_platform.to_lower_case

abbrev name : Text
name = codes " My Org, 2 "

generated : slugify lower name ≡ codes "my-org-2"
unfolding slugify
generated = refl

validate_org_slug_iff_example :
    (validate_org_slug ascii_text (codes "My-Org") ≡ none) ↔ IsLegal ascii_text (codes "my-org")
validate_org_slug_iff_example = validate_org_slug_iff ascii_text (codes "My-Org")

validate_org_slug-slugify_example : validate_org_slug ascii_text (slugify lower name) ≡ none
unfolding slug_body find_reserved username_blocklist
validate_org_slug-slugify_example =
    validate_org_slug-slugify ascii_platform ascii_text name (omega arith) (omega arith)
      (unfold caslink.Prelude.text_eq in refl)

my_org-IsLegal : IsLegal ascii_text (codes "my-org")
unfolding find_reserved username_blocklist
my_org-IsLegal = record {
  long_enough = omega arith;
  short_enough = omega arith;
  clean = refl;
  closed = refl;
  free = unfold caslink.Prelude.text_eq in refl;
}

run-Keeps_example :
    Keeps
      (run modern start (user_submit 3 ∷ close (button confirm) ∷ []))
      (record { asking = none; submitted = 3 ∷ [] })
unfolding promise_run promise_step
run-Keeps_example = run-Keeps (user_submit 3 ∷ close (button confirm) ∷ []) (fresh [])

abbrev asking : Engine
asking = record { show_modal = true; request_submit = false }
