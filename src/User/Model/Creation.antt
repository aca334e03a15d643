-- ===== src/User/Model/Creation.antt =====
-- What `UserEntity.create` accepts and makes.
use nestjs_chat.Base.{
  ℕ, ◌≡◌, ◌≢◌, refl, ◌↔◌, Option, none, List, [], ◌∷◌, arith, Text, trim, get_or,
}
use nestjs_chat.Action.{ok}
use nestjs_chat.User.Model.{UserEntity, UserEvent, user_created, user, create}

trim_nil : trim [] ≡ []
unfolding trim
trim_nil = refl

-- The new user, as the arguments say, and the event that announces it.
abbrev pub made_of :
    (id created_at updated_at : ℕ) (email username : Text)
    (password first_name last_name avatar : Option Text)
    → UserEntity × List UserEvent
made_of id created_at updated_at email username password first_name last_name avatar = (
  record {
    id = id;
    created_at = created_at;
    updated_at = updated_at;
    email = email;
    username = username;
    password = get_or password [];
    first_name = get_or first_name [];
    last_name = get_or last_name [];
    role = user;
    avatar = avatar;
    blocked_users = [];
    deleted_at = none;
  },
  user_created id email username ∷ [],
)

-- A user is made exactly if neither the email nor the name is blank; the user is as the arguments
-- say, with nothing for what is left out, blocks nobody, and is announced once.
pub user_create-ok_iff :
    (id created_at updated_at : ℕ) (email username : Text)
    (password first_name last_name avatar : Option Text) (r : UserEntity × List UserEvent)
    → (create id created_at updated_at email username password first_name last_name avatar ≡ ok r)
      ↔ ((trim email ≢ [])
          × (trim username ≢ [])
          × (r
              ≡ made_of id created_at updated_at email username password first_name last_name
                  avatar))
unfolding create
user_create-ok_iff id created_at updated_at [] username p f l a r = ground (arith, trim_nil)
user_create-ok_iff id created_at updated_at (c ∷ e) [] p f l a r = ground (arith, trim_nil)
user_create-ok_iff id created_at updated_at (c ∷ e) (d ∷ n) p f l a r = ground arith
