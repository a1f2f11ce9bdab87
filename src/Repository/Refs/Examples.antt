-- ===== src/Repository/Refs/Examples.antt =====
-- An advertisement of two refs.
use sekai_master_api.Prelude.{some, List, [], ◌∷◌, ◌≡◌, refl, arith}
use sekai_master_api.Prelude.Split.{cut_before, cut_after}
use sekai_master_api.Prelude.Text.{codes, same, trim_space}
use sekai_master_api.Repository.Refs.{
  Packet, flush, trim_newline, starts_with, parse_ref_packet, take_packet, parse_upload_pack_refs,
  select_upload_pack_ref,
}
use sekai_master_api.Repository.Refs.Lines.{body_of, take_packets, parse_upload_pack_refs-body}

abbrev advertised : List Packet
advertised =
    Packet.line (codes "# service=git-upload-pack\n")
    ∷ flush
    ∷ Packet.line (codes "1f HEAD\n")
    ∷ Packet.line (codes "2a refs/heads/main\n")
    ∷ flush
    ∷ []

parse_upload_pack_refs-body_example :
    parse_upload_pack_refs (body_of advertised)
    ≡ some ((codes "refs/heads/main", codes "2a") ∷ (codes "HEAD", codes "1f") ∷ [])
unfolding take_packets take_packet parse_ref_packet trim_newline starts_with cut_before cut_after
    same trim_space
parse_upload_pack_refs-body_example =
    parse_upload_pack_refs-body advertised
      (omega arith, (tt, (omega arith, (omega arith, (tt, tt)))))

main_is_found :
    select_upload_pack_ref
      ((codes "refs/heads/main", codes "2a") ∷ (codes "HEAD", codes "1f") ∷ [])
      (codes " main")
    ≡ some (codes "2a")
unfolding select_upload_pack_ref starts_with same trim_space
main_is_found = refl
