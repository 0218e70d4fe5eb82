-- ===== src/Block/Message.antt =====
-- `normalize_block` of src/utils.rs, which every message and action goes through, and the tags that
-- its callers add to those of the client.
use seabird_core.Prelude.{
  Text, text, ◌≡◌, refl, [], Option, none, some, RpcResult, ok, and_then, and_then-eq-ok, Entries,
  get, hash_insert, extend, text_ord, same_key, get-hash_insert, if◌then◌else◌, arith,
}
use seabird_core.Block.{
  Block, block, plain, inner, text_block, normalize_block_inner, render_inner_block,
}
use seabird_core.Block.Described.{fill, complaint, rendering}
use seabird_core.Block.Normal.{outcome, normalize_block_inner-eq, plain-fill}

abbrev pub Tags : Type 0
Tags = Entries Text Text

unfoldable pub original_format_tag : Text
original_format_tag = text "core/original-format"

unfoldable pub original_format : Option Block → Text
original_format none = text "text"
original_format (some b) = text "blocks"

-- The block, or a text block in its place.
unfoldable pub block_or_text : Text → Option Block → Block
block_or_text t none = block t (inner (text_block t))
block_or_text t (some b) = b

unfoldable pub normalize_block : Text → Option Block → RpcResult (Text × Block × Tags)
unfolding block_or_text original_format
normalize_block t b =
    and_then (normalize_block_inner (block_or_text t b))
      λ b'. ok (plain b', b', hash_insert original_format_tag (original_format b) [])

-- A message with no block becomes one text block, and never fails.
pub normalize_block-none :
    (t : Text)
    → normalize_block t none
      ≡ ok (t, block t (inner (text_block t)), hash_insert original_format_tag (text "text") [])
unfolding normalize_block normalize_block_inner render_inner_block
normalize_block-none t = refl

-- A message that comes with a block is sent as that block, filled in: the text that came beside it
-- is replaced by the rendering of the block. If a part is missing, the message is refused.
pub normalize_block-some :
    (t : Text) (b : Block)
    → normalize_block t (some b)
      ≡ outcome
          (complaint b)
          (rendering b, fill b, hash_insert original_format_tag (text "blocks") [])
unfolding normalize_block
normalize_block-some t b = ground (arith, normalize_block_inner-eq b, plain-fill b)

extend_one : (k v : Text) (tags : Tags) → extend tags (hash_insert k v []) ≡ hash_insert k v tags
unfolding extend hash_insert
extend_one k v tags = refl

-- What a message that is not refused is sent with: its text is the plain text of its block, and
-- among the tags, whatever the client's were, the one for the original format is the program's own,
-- and all other tags are the client's.
pub normalize_block-tags :
    (t u : Text) (b : Option Block) (c : Block) (tags additional : Tags)
    → normalize_block t b ≡ ok (u, c, additional)
    → (u ≡ plain c)
      × ((k : Text)
          → get k (extend tags additional)
            ≡ (if same_key k original_format_tag then some (original_format b) else get k tags))
unfolding normalize_block
normalize_block-tags t u b c tags additional h =
    let (b', done, e) = and_then-eq-ok (normalize_block_inner (block_or_text t b)) _ h in
    let added : additional ≡ hash_insert original_format_tag (original_format b) [] = cc e in
    (
      cc e,
      λ k.
          rw added (rw extend_one (get-hash_insert original_format_tag k (original_format b) tags)),
    )
