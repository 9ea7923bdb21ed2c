-- ===== src/Tests/Rights.antt =====
-- Links and their owners.
use caslink.Prelude.{
  not, ℕ, ◌≡◌, inl, inr, refl, ap, or_else, arith, codes, text_eq, true, Option, none, some,
}
use caslink.Links.{
  Link, Bearer, is_user, found, not_found, check_ownership, check_url_ownership, can_view_url,
  created_for,
}
use caslink.Links.Access.{
  status, check_url_ownership-eq-status, MayChange, check_ownership-hides,
  check_ownership-created_for,
}

abbrev private_link : Link
private_link = record { user_id = some 7; org_id = none; visibility = codes "private" }

abbrev stranger : Bearer
stranger = record { owner_type = codes "User"; owner_id = 8 }

check_url_ownership-eq-status_example :
    check_url_ownership (some stranger) (found private_link)
    ≡ status (check_ownership (some stranger) (found private_link))
check_url_ownership-eq-status_example =
    check_url_ownership-eq-status (some stranger) (found private_link)

refused_stranger : ¬ MayChange stranger private_link
unfolding text_eq
refused_stranger (inl admin) = cc
refused_stranger (inr (inl owner)) = cc
refused_stranger (inr (inr owner)) =
    absurd (omega (arith, ap (λ (o : Option ℕ). or_else o 0) owner.1))

check_ownership-hides_example :
    check_ownership (some stranger) (found private_link) ≡ check_ownership (some stranger) not_found
check_ownership-hides_example = check_ownership-hides stranger private_link refused_stranger

is_one : is_user stranger ≡ true
unfolding text_eq
is_one = refl

check_ownership-created_for_example :
    (check_ownership (some stranger) (found (created_for (some stranger) (codes "private"))) ≡ none)
    × (check_url_ownership (some stranger) (found (created_for (some stranger) (codes "private")))
        ≡ none)
    × (can_view_url (some stranger) (created_for (some stranger) (codes "private")) ≡ true)
    × (can_view_url none (created_for (some stranger) (codes "private"))
        ≡ not (text_eq (codes "private") (codes "private")))
check_ownership-created_for_example =
    check_ownership-created_for stranger (codes "private") (omega arith) (inl is_one)
