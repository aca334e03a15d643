-- ===== src/User/Commands/Tests.antt =====
-- Runs of the user commands on a store of the names that are taken.
use nestjs_chat.Base.{
  ℕ, zero, suc, ◌≡◌, refl, true, false, none, some, List, [], ◌∷◌, ◌++◌, Text, text_eq, any, arith,
  trim,
}
use nestjs_chat.Action.{World, ok}
use nestjs_chat.User.Model.{UserEntity, UserEvent, user, create}
use nestjs_chat.User.Ports.{UserRepositoryPort}
use nestjs_chat.User.Commands.{
  CreateUserCommand, Readings, user_prefix, generate_username, choose_username, create_user,
}
use nestjs_chat.User.Commands.CreateUser.{IsCreatedBy, generate_username_total, create_user_sound}

abbrev ann : UserEntity
ann = record {
  id = 1;
  created_at = 2;
  updated_at = 3;
  email = 97 ∷ [];
  username = 97 ∷ [];
  password = [];
  first_name = [];
  last_name = [];
  role = user;
  avatar = none;
  blocked_users = [];
  deleted_at = none;
}

abbrev names : UserRepositoryPort (List Text)
names = record {
  save = λ u s. (ok u, u.username ∷ s);
  get_user_by_id = λ i s. ok (some ann);
  email_exists = λ e s. ok false;
  username_exists = λ n s. ok (any (text_eq n) s);
  block = λ a b s. (ok true, s);
  unblock = λ a b s. (ok true, s);
  get_block_status = λ a b s. ok false;
  delete = λ i s. (ok true, s);
}

abbrev world : World (List Text) UserEvent
world = record { store = (user_prefix ++ 97 ∷ []) ∷ []; published = [] }

-- the first draw is taken
abbrev draw : ℕ → Text
draw zero = 97 ∷ []
draw (suc i) = 98 ∷ []

generate_username_total_example :
    (name : Text) × (generate_username names 2 0 draw world.store ≡ ok (some name))
    × (names.username_exists name world.store ≡ ok false)
generate_username_total_example =
    generate_username_total names 2 0 1 draw world.store (λ i. (_, refl)) refl (omega arith)

abbrev command : CreateUserCommand
command = record {
  email = 97 ∷ [];
  username = none;
  password = [];
  first_name = none;
  last_name = none;
  avatar = none;
}

abbrev readings : Readings
readings = record { id = 1; created_at = 2; updated_at = 3 }

create_user_sound_example :
    IsCreatedBy names
      (λ p. p)
      readings
      command
      world
      (record ann { username = user_prefix ++ 98 ∷ [] })
      (create_user names 2 draw (λ p. p) readings command world).1
unfolding create_user choose_username generate_username create trim
create_user_sound_example = create_user_sound names 2 draw (λ p. p) readings command world refl
