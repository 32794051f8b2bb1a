-- ===== src/Transport/SyncService/ObjectId.antt =====
-- The object ids of the sync service: a leaf hub's name, a dot, and a message key.
use Prim.Native.Char.{code}
use Prim.Native.String.append
use hub_of_hubs_status_trans.Base.{
  ◌≡◌, refl, ap, ◌∙◌, String, List, [], ◌∷◌, ◌++◌, Option, none, some, str_append, split_dots,
  Pieces, ◌==◌, Bool-cases, inl, inr,
}
use hub_of_hubs_status_trans.Transport.SyncService.{msg_id_of}

-- The pieces of two texts with a dot between them.
abbrev join_pieces : Pieces → Pieces → Pieces
join_pieces (w, ws) (x, xs) = (w, ws ++ x ∷ xs)

split_dots-dot :
    (msg : String) → split_dots (str_append "." msg) ≡ join_pieces ("", []) (split_dots msg)
unfolding split_dots
split_dots-dot msg =
    ap split_dots (append.cons _ "" msg)
    ∙ ap (λ m. join_pieces ("", []) (split_dots m)) (append.nil msg)

split_dots-append :
    (hub msg : String)
    → split_dots (str_append hub (str_append "." msg))
      ≡ join_pieces (split_dots hub) (split_dots msg)
unfolding split_dots
split_dots-append String.[] msg =
    ap split_dots (append.nil (str_append "." msg)) ∙ split_dots-dot msg
split_dots-append (String.◌∷◌ c hub) msg =
    let e = split_dots-append hub msg in
    ap split_dots (append.cons c hub (str_append "." msg)) ∙ elim (Bool-cases (code c == 46)) [
      | inl dot ↦ rw dot (ap (λ p. ("", p.0 ∷ p.1)) e)
      | inr other ↦ rw other (ap (λ p. (String.◌∷◌ c p.0, p.1)) e)
    ]

-- The first of these texts, or else that one.
abbrev pub first_or : List String → String → String
first_or [] msg = msg
first_or (w ∷ ws) msg = w

abbrev second_piece : Pieces → Option String
second_piece (w, []) = none
second_piece (w, v ∷ vs) = some v

second_piece_lem :
    (w : String) (ws : List String) (p : Pieces)
    → second_piece (join_pieces (w, ws) p) ≡ some (first_or ws p.0)
second_piece_lem w [] p = refl
second_piece_lem w (v ∷ vs) p = refl

-- The message key that is read off the object id `hub.msg`: where the leaf hub's name has no dot, it
-- is what stands before the first dot of `msg`; where it has one, it is what follows that dot in the
-- name, up to the next.
pub msg_id_of-append :
    (hub msg : String)
    → msg_id_of (str_append hub (str_append "." msg))
      ≡ some (first_or (split_dots hub).1 (split_dots msg).0)
unfolding msg_id_of
msg_id_of-append hub msg =
    let (w, ws) = split_dots hub in
    ap second_piece (split_dots-append hub msg) ∙ second_piece_lem w ws (split_dots msg)
