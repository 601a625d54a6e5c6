-- ===== src/Search/Indexer/Mirror.antt =====
-- The indices as the replay of the events: what a client of the search may rely on.
use twitter_microservices.Prelude.{
  ℕ, ◌≡◌, ◌≢◌, ◌∙◌, subst, inl, inr, refl, ap, sym, Bool, true, false, ◌&&◌, Option, none, some,
  List, [], ◌∷◌, Bytes, ◌=?◌, if◌then◌else◌, arith, bytes_eq_refl, bytes_eq_iff, Bool-cases, ◌==◌,
}
use twitter_microservices.Shared.Errors.{Error, Result, ok, err}
use twitter_microservices.Shared.Events.{TweetCreatedEvent, TweetDeletedEvent}
use twitter_microservices.Shared.Kafka.{
  Message, topic_tweet_created, topic_tweet_deleted, topic_user_created, topic_user_updated,
}
use twitter_microservices.Search.Index.{
  Server, Docs, KeepsDocs, index_tweets, index_users, is_error, with_doc, upsert, delete,
  upsert_answer, delete_answer,
}
use twitter_microservices.Search.Indexer.{
  Env, Fate, committed, dead_lettered_and_committed, left, fate_of, tweet_doc, created_doc,
  updated_doc, index_tweet, index_user_created, index_user_updated, decoded, dispatch, round,
}

-- What storing a document means.
abbrev stored : (index id : Bytes) → Result Bytes → Docs → Docs
stored index id (err e) docs = docs
stored index id (ok body) docs = with_doc index id (some body) docs

abbrev on_event : {A : Type 0} → Option A → (A → Docs → Docs) → Docs → Docs
on_event none f docs = docs
on_event (some evt) f docs = f evt docs

-- What a message means for the documents: a tweet or a user is stored as the event has it, or a
-- tweet is gone; a message that cannot be read means nothing.
abbrev pub apply : Env → Message → Docs → Docs
apply env msg docs =
    if msg.topic =? topic_tweet_created
    then on_event (env.read.tweet_created msg.value)
        (λ evt. stored index_tweets evt.tweet_id (env.marshal_tweet (tweet_doc env evt))) docs
    else if msg.topic =? topic_tweet_deleted
    then on_event (env.read.tweet_deleted msg.value)
        (λ evt. with_doc index_tweets evt.tweet_id none) docs
    else if msg.topic =? topic_user_created
    then on_event (env.read.user_created msg.value)
        (λ evt. stored index_users evt.user_id (env.marshal_user (created_doc env evt))) docs
    else if msg.topic =? topic_user_updated
    then on_event (env.read.user_updated msg.value)
        (λ evt. stored index_users evt.user_id (env.marshal_user (updated_doc env evt))) docs
    else docs

abbrev NamesAn : {A : Type 0} → Option A → (A → Bytes) → Type 0
NamesAn none id_of = Unit
NamesAn (some evt) id_of = id_of evt ≢ []

-- An event that a message announces as new or changed has an ID.
abbrev pub Names : Env → Message → Type 0
Names env msg =
    (msg.topic ≡ topic_tweet_created
      → NamesAn (env.read.tweet_created msg.value) (λ evt. evt.tweet_id))
    × (msg.topic ≡ topic_user_created
        → NamesAn (env.read.user_created msg.value) (λ evt. evt.user_id))
    × (msg.topic ≡ topic_user_updated
        → NamesAn (env.read.user_updated msg.value) (λ evt. evt.user_id))

abbrev pub AllName : List (Env × Message) → Type 0
AllName [] = Unit
AllName ((env, msg) ∷ rest) = Names env msg × AllName rest

abbrev pub is_done : Fate → Bool
is_done committed = true
is_done dead_lettered_and_committed = true
is_done left = false

abbrev pub replay : List (Env × Message) → Docs → Docs
replay [] docs = docs
replay ((env, msg) ∷ rest) docs = replay rest (apply env msg docs)

named_id :
    {A : Type 0} (o : Option A) (id_of : A → Bytes) (evt : A)
    → o ≡ some evt
    → NamesAn o id_of
    → id_of evt ≢ []
named_id o id_of evt e named = subst (λ q. NamesAn q id_of) e named

topics_differ : false ≢ true
topics_differ e = ground arith

module _ (srv : Server) where
  open srv use {State}

  -- The rounds of a run, each with its environment.
  abbrev pub run : List (Env × Message) → State → State
  run [] s = s
  run ((env, msg) ∷ rest) s = run rest (round env srv msg s).0

  -- Every round commits its offset.
  abbrev pub all_done : List (Env × Message) → State → Bool
  all_done [] s = true
  all_done ((env, msg) ∷ rest) s =
      is_done (round env srv msg s).1 && all_done rest (round env srv msg s).0

module _ (srv : Server) (k : KeepsDocs srv) where
  open srv use {State, index_doc, delete_doc}
  open k use {docs}

  -- A write that lets the offset be committed has stored the document.
  upsert-docs :
      (index id : Bytes) (r : Result Bytes) (s : State)
      → id ≢ []
      → is_done (fate_of (upsert srv index id r s).1) ≡ true
      → (i j : Bytes) → docs (upsert srv index id r s).0 i j ≡ stored index id r (docs s) i j
  unfolding upsert
  upsert-docs index id (err e) s named h i j = refl
  upsert-docs index id (ok body) s named h i j = by_answer (index_doc index id body s) refl h
    where
      by_answer :
          (a : State × Option ℕ)
          → index_doc index id body s ≡ a
          → is_done (fate_of (upsert_answer srv a).1) ≡ true
          → docs (upsert_answer srv a).0 i j ≡ with_doc index id (some body) (docs s) i j
      by_answer (t, none) e h = absurd (ground arith)
      by_answer (t, some status) e h = elim (Bool-cases (is_error status)) [
        | inl failed ↦ absurd (ground arith)
        | inr fine ↦
            ap (λ (a : State × Option ℕ). docs a.0 i j) (sym e)
            ∙ k.indexed index id body s status named (ap (λ (a : State × Option ℕ). a.1) e) fine i j
      ]

  delete-docs :
      (index id : Bytes) (s : State)
      → is_done (fate_of (delete srv index id s).1) ≡ true
      → (i j : Bytes) → docs (delete srv index id s).0 i j ≡ with_doc index id none (docs s) i j
  unfolding delete
  delete-docs index id s h i j = by_answer (delete_doc index id s) refl h
    where
      by_answer :
          (a : State × Option ℕ)
          → delete_doc index id s ≡ a
          → is_done (fate_of (delete_answer srv a).1) ≡ true
          → docs (delete_answer srv a).0 i j ≡ with_doc index id none (docs s) i j
      by_answer (t, none) e h = absurd (ground arith)
      by_answer (t, some status) e h = elim (Bool-cases (status == 404)) [
        | inl absent ↦
            ap (λ (a : State × Option ℕ). docs a.0 i j) (sym e)
            ∙ k.deleted index id s status (ap (λ (a : State × Option ℕ). a.1) e)
                (inr (ground arith)) i j
        | inr other ↦ elim (Bool-cases (is_error status)) [
          | inl failed ↦ absurd (ground arith)
          | inr fine ↦
              ap (λ (a : State × Option ℕ). docs a.0 i j) (sym e)
              ∙ k.deleted index id s status (ap (λ (a : State × Option ℕ). a.1) e) (inl fine) i j
        ]
      ]

  decoded-docs :
      {A : Type 0} (env : Env) (o : Option A) (f : A → State → State × Option Error)
      (g : A → Docs → Docs) (s : State)
      → ((evt : A)
          → o ≡ some evt
          → is_done (fate_of (f evt s).1) ≡ true
          → (i j : Bytes) → docs (f evt s).0 i j ≡ g evt (docs s) i j)
      → is_done (fate_of (decoded env srv o f s).1) ≡ true
      → (i j : Bytes) → docs (decoded env srv o f s).0 i j ≡ on_event o g (docs s) i j
  decoded-docs env none f g s h done i j = refl
  decoded-docs env (some evt) f g s h done i j = h evt refl done i j

  -- A round whose offset is committed has done to the documents what its message means.
  pub round-apply :
      (env : Env) (msg : Message) (s : State)
      → Names env msg
      → is_done (round env srv msg s).1 ≡ true
      → (i j : Bytes) → docs (round env srv msg s).0 i j ≡ apply env msg (docs s) i j
  unfolding round dispatch
  round-apply env msg s (t, c, u) done i j = elim (Bool-cases (msg.topic =? topic_tweet_created)) [
    | inl yes_1 ↦ rw yes_1 (
        decoded-docs env (env.read.tweet_created msg.value) (index_tweet env srv)
          (λ evt. stored index_tweets evt.tweet_id (env.marshal_tweet (tweet_doc env evt))) s
          (λ evt e.
            upsert-docs index_tweets evt.tweet_id _ s
              (named_id _ (λ x. x.tweet_id) evt e (t ((bytes_eq_iff _ _).0 yes_1))))
          (rw yes_1 at done) i j)
    | inr no_1 ↦ elim (Bool-cases (msg.topic =? topic_tweet_deleted)) [
      | inl yes_2 ↦
          rw (no_1, yes_2)
            (decoded-docs env (env.read.tweet_deleted msg.value)
              (λ evt. delete srv index_tweets evt.tweet_id)
              (λ evt. with_doc index_tweets evt.tweet_id none) s
              (λ evt e. delete-docs index_tweets evt.tweet_id s) (rw (no_1, yes_2) at done) i j)
      | inr no_2 ↦ elim (Bool-cases (msg.topic =? topic_user_created)) [
        | inl yes_3 ↦
            rw (no_1, no_2, yes_3)
              (decoded-docs env (env.read.user_created msg.value) (index_user_created env srv)
                (λ evt. stored index_users evt.user_id (env.marshal_user (created_doc env evt))) s
                (λ evt e.
                  upsert-docs index_users evt.user_id _ s
                    (named_id _ (λ x. x.user_id) evt e (c ((bytes_eq_iff _ _).0 yes_3))))
                (rw (no_1, no_2, yes_3) at done) i j)
        | inr no_3 ↦ elim (Bool-cases (msg.topic =? topic_user_updated)) [
          | inl yes_4 ↦
              rw (no_1, no_2, no_3, yes_4)
                (decoded-docs env (env.read.user_updated msg.value) (index_user_updated env srv)
                  (λ evt. stored index_users evt.user_id (env.marshal_user (updated_doc env evt))) s
                  (λ evt e.
                    upsert-docs index_users evt.user_id _ s
                      (named_id _ (λ x. x.user_id) evt e (u ((bytes_eq_iff _ _).0 yes_4))))
                  (rw (no_1, no_2, no_3, yes_4) at done) i j)
          | inr no_4 ↦ rw (no_1, no_2, no_3, no_4)
        ]
      ]
    ]
  ]

  -- The indices after a run whose rounds all commit are the replay of the messages: each document
  -- is what the last message about it makes of it, where the tweets and users that are announced
  -- have an ID.
  pub run-replay :
      (rounds : List (Env × Message)) (s : State)
      → AllName rounds
      → all_done srv rounds s ≡ true
      → (i j : Bytes) → docs (run srv rounds s) i j ≡ replay rounds (docs s) i j
  run-replay [] s named done i j = refl
  run-replay ((env, msg) ∷ rest) s (named, others) done i j =
      let first : is_done (round env srv msg s).1 ≡ true = ground arith in
      let more : all_done srv rest (round env srv msg s).0 ≡ true = ground arith in
      let step : docs (round env srv msg s).0 ≡ apply env msg (docs s) =
        λ t i' j'. round-apply env msg s named first i' j' t in
      run-replay rest (round env srv msg s).0 others more i j
      ∙ ap (λ (d : Docs). replay rest d i j) step

  -- If the indexer reads the deletion of a tweet that has an ID before its creation, which are on
  -- two topics, the tweet is in the index in the end, though both rounds commit.
  pub late_create_revives :
      (env env' : Env) (gone late : Message) (evt : TweetDeletedEvent) (evt' : TweetCreatedEvent)
      (body : Bytes) (s : State)
      → (gone.topic ≡ topic_tweet_deleted) × (env.read.tweet_deleted gone.value ≡ some evt)
      → (late.topic ≡ topic_tweet_created) × (env'.read.tweet_created late.value ≡ some evt')
      → env'.marshal_tweet (tweet_doc env' evt') ≡ ok body
      → (evt.tweet_id ≡ evt'.tweet_id) × (evt'.tweet_id ≢ [])
      → all_done srv ((env, gone) ∷ (env', late) ∷ []) s ≡ true
      → docs (run srv ((env, gone) ∷ (env', late) ∷ []) s) index_tweets evt.tweet_id ≡ some body
  unfolding ◌=?◌
  late_create_revives env env' gone late evt evt' body s (a, b) (c, d) m (e, named) done =
      let last : is_done (round env' srv late (round env srv gone s).0).1 ≡ true = ground arith in
      round-apply env' late (round env srv gone s).0
        (
          λ h. subst (λ q. NamesAn q (λ x. x.tweet_id)) (sym d) named,
          λ h. absurd (topics_differ (ap (λ x. x =? topic_user_created) (sym c ∙ h))),
          λ h. absurd (topics_differ (ap (λ x. x =? topic_user_updated) (sym c ∙ h))),
        )
        last index_tweets evt.tweet_id
      ∙ rw (c, d, m, e, bytes_eq_refl evt'.tweet_id)
