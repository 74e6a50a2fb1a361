-- ===== src/Exchange/Documents.antt =====
-- What the messages of an exchange say: the offer, the offer as the server passes it on, the answer
-- that is made of it, and the answer as the server passes it on.
use cloud_node.Base.{
  if◌then◌else◌, Bool-cases, Option-cases, ◌>>=◌, ◌==◌, ==_iff, ==_refl, nat_ord, Text, text,
  text_cmp, text_ord, pair_ord, ◌≡◌, ◌∙◌, ◌≢◌, inl, inr, true, none, some, arith,
}
use cloud_node.Json.{Json, IsLawful, ℤ, string_member, object_member}
use cloud_node.Server.Authority.{set_peer}

module _ (J : Json) where
  -- A file offer to a peer in a room, as `SendFileOffer` writes it.
  pub record IsOffer (doc file : J.Value) (uuid room peer name mime_type : Text) (size : ℤ)
      : Type 0 where
    pub is_object : J.is_object doc ≡ true
    pub type : string_member J (text "type") doc ≡ some (text "file_offer")
    pub names_uuid : string_member J (text "uuid") doc ≡ some uuid
    pub names_room : string_member J (text "room") doc ≡ some room
    pub names_peer : string_member J (text "peer") doc ≡ some peer
    pub names_file : object_member J (text "file") doc ≡ some file
    pub file_name : string_member J (text "name") file ≡ some name
    pub file_size : (J.member? (text "size") file >>= J.int64?) ≡ some size
    pub file_type : string_member J (text "mimeType") file ≡ some mime_type

  -- The offer under the sender's id, as the server passes it on.
  abbrev pub passed_on : Text → J.Value → J.Value
  passed_on from doc = J.set_string (text "peer") from doc

  -- An offer with another type, and without a `peer`.
  abbrev pub retyped : Text → J.Value → J.Value
  retyped type doc = J.set_string (text "type") type doc

  abbrev pub without_peer : J.Value → J.Value
  without_peer doc = J.erase (text "peer") doc

  -- The document of `SendFileAccept`, which erases the peer twice, and of `SendFileReject`.
  abbrev pub acceptance : Text → J.Value → J.Value
  acceptance to doc =
      J.add (text "peer") (J.string to)
        (without_peer (without_peer (retyped (text "file_accept") doc)))

  abbrev pub rejection : Text → J.Value → J.Value
  rejection to doc =
      J.add (text "peer") (J.string to) (without_peer (retyped (text "file_reject") doc))

  module _ (L : IsLawful J) {doc file : J.Value} {uuid room peer name mime_type : Text} {size : ℤ}
      (o : IsOffer doc file uuid room peer name mime_type size) (from : Text) where
    member?-passed_on :
        (k : Text)
        → J.member? k (passed_on from doc)
          ≡ (if k == text "peer" then some (J.string from) else J.member? k doc)
    member?-passed_on k = set_peer J L from doc k o.names_peer

    -- The server changes the sender's id and nothing else.
    pub passed_on-IsOffer : IsOffer (passed_on from doc) file uuid room from name mime_type size
    unfolding text_cmp
    passed_on-IsOffer = record {
      is_object = L.is_object-set_string (text "peer") from doc ∙ o.is_object;
      type = ground (arith, member?-passed_on (text "type"), o.type);
      names_uuid = ground (arith, member?-passed_on (text "uuid"), o.names_uuid);
      names_room = ground (arith, member?-passed_on (text "room"), o.names_room);
      names_peer =
          ground
            (arith, member?-passed_on (text "peer"), ==_refl (text "peer"), L.string?-string from);
      names_file = ground (arith, member?-passed_on (text "file"), o.names_file);
      file_name = o.file_name;
      file_size = o.file_size;
      file_type = o.file_type;
    }

  -- An answer with an offer's identifier, addressed to a peer in a room.
  pub record IsAnswer (type : Text) (doc file : J.Value) (uuid room peer name : Text) : Type 0 where
    pub is_object : J.is_object doc ≡ true
    pub has_type : string_member J (text "type") doc ≡ some type
    pub names_uuid : string_member J (text "uuid") doc ≡ some uuid
    pub names_room : string_member J (text "room") doc ≡ some room
    pub names_peer : string_member J (text "peer") doc ≡ some peer
    pub names_file : object_member J (text "file") doc ≡ some file
    pub file_name : string_member J (text "name") file ≡ some name

  -- A document that says what another says, but for its type and its peer.
  record Follows (type : Text) (doc copy : J.Value) : Type 0 where
    is_object : J.is_object copy ≡ true
    others :
        (k : Text)
        → k ≢ text "peer"
        → J.member? k copy ≡ (if k == text "type" then some (J.string type) else J.member? k doc)

  module _ (L : IsLawful J) {doc : J.Value} where
    without_peer-Follows :
        (type : Text) (copy : J.Value)
        → Follows type doc copy
        → Follows type doc (without_peer copy)
    without_peer-Follows type copy f = record {
      is_object = L.is_object-erase (text "peer") copy ∙ f.is_object;
      others = λ k n. L.member?-erase k (text "peer") copy n ∙ f.others k n;
    }

    module _ {file : J.Value} {uuid room from name mime_type : Text} {size : ℤ}
        (o : IsOffer doc file uuid room from name mime_type size) where
      retyped-Follows : (type : Text) → Follows type doc (retyped type doc)
      retyped-Follows type = record {
        is_object = L.is_object-set_string (text "type") type doc ∙ o.is_object;
        others = λ k n. elim (Option-cases (J.member? (text "type") doc)) [
          | inl e ↦ absurd (ground (arith, e, o.type))
          | inr (w, e) ↦ L.member?-set_string k (text "type") type doc e
        ];
      }

      module _ (type to : Text) (copy : J.Value) (f : Follows type doc copy)
          (erased : J.member? (text "peer") copy ≡ none) where
        member?-addressed :
            (k : Text)
            → J.member? k (J.add (text "peer") (J.string to) copy) ≡ (
                if k == text "peer"
                then some (J.string to)
                else if k == text "type"
                then some (J.string type)
                else J.member? k doc)
        member?-addressed k =
            L.member?-add k (text "peer") (J.string to) copy f.is_object erased
            ∙ elim (Bool-cases (k == text "peer")) [
              | inl e ↦ rw e
              | inr e ↦ rw e (f.others k (ground (arith, e, ==_iff k (text "peer"))))
            ]

        addressed-IsAnswer :
            IsAnswer type (J.add (text "peer") (J.string to) copy) file uuid room to name
        unfolding text_cmp
        addressed-IsAnswer = record {
          is_object = L.is_object-add (text "peer") (J.string to) copy ∙ f.is_object;
          has_type = ground (arith, member?-addressed (text "type"), L.string?-string type);
          names_uuid = ground (arith, member?-addressed (text "uuid"), o.names_uuid);
          names_room = ground (arith, member?-addressed (text "room"), o.names_room);
          names_peer = ground (arith, member?-addressed (text "peer"), L.string?-string to);
          names_file = ground (arith, member?-addressed (text "file"), o.names_file);
          file_name = o.file_name;
        }

      -- What the receiver makes of an offer is an answer to it, if the erasures leave no `peer`.
      pub acceptance-IsAnswer :
          (to : Text)
          → J.member? (text "peer") (without_peer (without_peer (retyped (text "file_accept") doc)))
            ≡ none
          → IsAnswer (text "file_accept") (acceptance to doc) file uuid room to name
      acceptance-IsAnswer to e =
          addressed-IsAnswer (text "file_accept") to _
            (without_peer-Follows (text "file_accept") _
              (without_peer-Follows (text "file_accept") _ (retyped-Follows (text "file_accept"))))
            e

      pub rejection-IsAnswer :
          (to : Text)
          → J.member? (text "peer") (without_peer (retyped (text "file_reject") doc)) ≡ none
          → IsAnswer (text "file_reject") (rejection to doc) file uuid room to name
      rejection-IsAnswer to e =
          addressed-IsAnswer (text "file_reject") to _
            (without_peer-Follows (text "file_reject") _ (retyped-Follows (text "file_reject"))) e

    -- The server changes an answer's peer and nothing else.
    pub passed_on-IsAnswer :
        {type : Text} {file : J.Value} {uuid room peer name : Text}
        → IsAnswer type doc file uuid room peer name
        → (from : Text) → IsAnswer type (passed_on from doc) file uuid room from name
    unfolding text_cmp
    passed_on-IsAnswer a from = record {
      is_object = L.is_object-set_string (text "peer") from doc ∙ a.is_object;
      has_type = ground (arith, set_peer J L from doc (text "type") a.names_peer, a.has_type);
      names_uuid = ground (arith, set_peer J L from doc (text "uuid") a.names_peer, a.names_uuid);
      names_room = ground (arith, set_peer J L from doc (text "room") a.names_peer, a.names_room);
      names_peer =
          ground (arith, set_peer J L from doc (text "peer") a.names_peer, L.string?-string from);
      names_file = ground (arith, set_peer J L from doc (text "file") a.names_peer, a.names_file);
      file_name = a.file_name;
    }
