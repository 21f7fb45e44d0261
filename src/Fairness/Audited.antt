-- ===== src/Fairness/Audited.antt =====
-- The audit of a hand that was committed as it says.
use x_poker.Base.{
  ℕ, ◌<◌, ◌≡◌, refl, sym, subst, ◌∙◌, true, not, ◌&&◌, some, List, [], ◌∷◌, map, ltb, leb, ◌==◌, ok,
  >>=-eq-ok, assert-eq-ok, ok-injective, length, All, Bytes, has_bytes, unique_bytes, sort_by,
  sort_by-All,
}
use x_poker.Fairness.Fields.{
  Crypto, invalid_length, invalid_player_count, missing_player_id, duplicate_player, short_hand_id,
  too_few_seeds, text_length, from_hex, domain_hash, commit_server_seed, commit_player_seed,
  verify_server_reveal, verify_player_reveal,
}
use x_poker.Fairness.Cards.{Card}
use x_poker.Fairness.Hand.{
  Beacon, PlayerSeed, PlayerCommitment, PlayerInput, CommittedPlayer, normalize_beacon, seed_of,
  commitment_of, or_secret, commitment_for, derive_hand_seed, commit_players, normalize_players,
}
use x_poker.Fairness.Audit.{cards_from, check_reveals}
use x_poker.Fairness.Paths.{Lawful, IsHash}
use x_poker.Fairness.Reveals.{equal_hex_refl, card_from_id-ok}
use x_poker.Fairness.Uniques.{unique_bytes-sort_by}

from_hex-eq-ok : (h : Bytes) {b : Bytes} → from_hex h ≡ ok b → b ≡ h
from_hex-eq-ok h e =
    let (long, same) = assert-eq-ok (length h == 32) invalid_length (ok h) e in
    sym (ok-injective same)

pub cards_from-ok :
    (order : List ℕ) → All (λ c. c < 52) order → (cards : List Card) × (cards_from order ≡ ok cards)
unfolding cards_from
cards_from-ok [] low = ([], refl)
cards_from-ok (c ∷ cs) low =
    let (card, made, _) = card_from_id-ok c low.0 in
    let (cards, rest) = cards_from-ok cs low.1 in (card ∷ cards, rw (made, rest) refl)

module _ (crypto : Crypto) (lawful : Lawful crypto) where
  abbrev pub IsCommitted : Bytes → CommittedPlayer → Type 0
  IsCommitted hand_id p = commit_player_seed crypto hand_id p.player_id p.seed ≡ ok p.commitment

  commit_players-IsCommitted :
      (hand_id : Bytes) (ids : List Bytes) (players : List PlayerInput)
      {committed : List CommittedPlayer}
      → commit_players crypto hand_id ids players ≡ ok committed
      → All (IsCommitted hand_id) committed
  unfolding commit_players
  commit_players-IsCommitted hand_id ids [] h =
      subst (All (IsCommitted hand_id)) (ok-injective h) tt
  commit_players-IsCommitted hand_id ids (p ∷ ps) h =
      let (_, h1) = assert-eq-ok (ltb 0 (length p.player_id)) missing_player_id _ h in
      let (_, h2) = assert-eq-ok (not (has_bytes ids p.player_id)) duplicate_player _ h1 in
      let (commitment, c, h3) =
        >>=-eq-ok (commit_player_seed crypto hand_id p.player_id (or_secret p.seed p.secret)) _
          h2 in
      let (rest, r, h4) = >>=-eq-ok (commit_players crypto hand_id (p.player_id ∷ ids) ps) _ h3 in
      subst (All (IsCommitted hand_id)) (ok-injective h4)
        (c, commit_players-IsCommitted hand_id (p.player_id ∷ ids) ps r)

  pub normalize_players-IsCommitted :
      (hand_id : Bytes) (players : List PlayerInput) {committed : List CommittedPlayer}
      → normalize_players crypto hand_id players ≡ ok committed
      → All (IsCommitted hand_id) committed
  unfolding normalize_players
  normalize_players-IsCommitted hand_id players h =
      let (_, h1) =
        assert-eq-ok (leb 2 (length players) && leb (length players) 9) invalid_player_count _ h in
      let (made, c, h2) = >>=-eq-ok (commit_players crypto hand_id [] players) _ h1 in
      subst (All (IsCommitted hand_id)) (ok-injective h2)
        (sort_by-All _ (IsCommitted hand_id) made (commit_players-IsCommitted hand_id [] players c))

  verify_player_reveal-ok :
      (hand_id player_id seed : Bytes) {commitment : Bytes}
      → commit_player_seed crypto hand_id player_id seed ≡ ok commitment
      → verify_player_reveal crypto hand_id player_id commitment seed ≡ ok true
  unfolding domain_hash
  verify_player_reveal-ok hand_id player_id seed {commitment} h =
      let (bytes, b, h1) = >>=-eq-ok (from_hex seed) _ h in
      let hashed : IsHash commitment = subst IsHash (ok-injective h1) (lawful.sha256_long _) in
      rw (h, equal_hex_refl commitment hashed) refl

  pub verify_server_reveal-ok :
      (hand_id seed : Bytes) {commitment : Bytes}
      → commit_server_seed crypto hand_id seed ≡ ok commitment
      → verify_server_reveal crypto hand_id commitment seed ≡ ok true
  unfolding domain_hash
  verify_server_reveal-ok hand_id seed {commitment} h =
      let (bytes, b, h1) = >>=-eq-ok (from_hex seed) _ h in
      let hashed : IsHash commitment = subst IsHash (ok-injective h1) (lawful.sha256_long _) in
      rw (h, equal_hex_refl commitment hashed) refl

  -- The players' reveals pass one by one.
  pub check_reveals-ok :
      (hand_id : Bytes) (all_of : List PlayerCommitment) (ps : List CommittedPlayer)
      → All (IsCommitted hand_id) ps
      → All (λ p. commitment_for p.player_id all_of ≡ some (commitment_of p)) ps
      → check_reveals crypto hand_id all_of (map seed_of ps) ≡ ok tt
  unfolding check_reveals
  check_reveals-ok hand_id all_of [] c f = refl
  check_reveals-ok hand_id all_of (p ∷ ps) (c, cs) (f, fs) =
      rw
        (
          f,
          verify_player_reveal-ok hand_id p.player_id p.seed c,
          check_reveals-ok hand_id all_of ps cs fs,
        )
        refl

  -- The players of a derived seed have ids of their own.
  pub derive_hand_seed_unique :
      (hand_id digest server_seed : Bytes) (beacon : Beacon) (ps : List PlayerSeed) {seed : Bytes}
      → derive_hand_seed crypto hand_id digest server_seed beacon ps ≡ ok seed
      → unique_bytes (map (λ (p : PlayerSeed). p.player_id) ps) ≡ true
  unfolding derive_hand_seed
  derive_hand_seed_unique hand_id digest server_seed beacon ps h =
      let (_, h1) = assert-eq-ok (leb 8 (text_length hand_id)) short_hand_id _ h in
      let (_, _, h2) = >>=-eq-ok (from_hex server_seed) _ h1 in
      let (b, _, h3) = >>=-eq-ok (normalize_beacon beacon) _ h2 in
      let (_, _, h4) = >>=-eq-ok (from_hex b.randomness) _ h3 in
      let (_, _, h5) = >>=-eq-ok (from_hex digest) _ h4 in
      let (_, h6) = assert-eq-ok (leb 2 (length ps)) too_few_seeds _ h5 in
      let precedes = λ (a b : PlayerSeed). crypto.precedes a.player_id b.player_id in
      let ids = map (λ (p : PlayerSeed). p.player_id) (sort_by precedes ps) in
      let (unique, _) = assert-eq-ok (unique_bytes ids) duplicate_player _ h6 in
      sym (unique_bytes-sort_by (λ (p : PlayerSeed). p.player_id) precedes ps) ∙ unique
