-- ===== src/Examples/Concrete.antt =====
-- A platform whose UUIDs are texts and whose floats are fractions, with servers that meet no fault.
use go_ordersvc.Prelude.{
  ℕ, ◌+◌, ◌-◌, ◌*◌, ◌/◌, true, not, String, none, some, List, [], ◌==◌, str_eq, str_eq_iff, refl,
}
use go_ordersvc.Prelude.Int.{ℤ, pos, negsuc, ◌+ℤ◌, ◌*ℤ◌, pos_part, leb_ℤ, quot}
use go_ordersvc.Json.{arr, nil}
use go_ordersvc.Platform.{Platform}
use go_ordersvc.Outside.{Condition, clear}
use go_ordersvc.Domain.Status.{pending}
use go_ordersvc.Domain.Item.{OrderItem}
use go_ordersvc.Domain.Order.{Order}
use go_ordersvc.Repository.Database.{Row, Database}
use go_ordersvc.Cache.Redis.{RedisServer, Keys}
use go_ordersvc.Messaging.Kafka.{Topic}
use go_ordersvc.Server.{World}

-- A numerator and a denominator.
abbrev pub Fraction : Type 0
Fraction = ℤ × ℕ

-- Rounding up.
abbrev pub ceiling : Fraction → ℤ
ceiling (pos a, b) = pos ((a + b - 1) / b)
ceiling (negsuc a, b) = quot (negsuc a) b

abbrev pub sample : Platform
sample = record {
  UUID = String;
  uuid_nil = "00000000-0000-0000-0000-000000000000";
  uuid_eq = str_eq;
  uuid_eq_iff = str_eq_iff;
  uuid_string = λ u. u;
  uuid_parse = λ s. some s;
  column_uuid = λ s. some s;
  uuid_parse-string = λ u. refl;
  column_uuid-string = λ u. refl;
  Float64 = Fraction;
  float_zero = (pos 0, 1);
  of_int = λ n. (n, 1);
  float_add = λ x y. (x.0 *ℤ pos y.1 +ℤ y.0 *ℤ pos x.1, x.1 * y.1);
  float_mul = λ x y. (x.0 *ℤ y.0, x.1 * y.1);
  float_div = λ x y. (x.0 *ℤ pos y.1, x.1 * pos_part y.0);
  float_leb = λ x y. leb_ℤ (x.0 *ℤ pos y.1) (y.0 *ℤ pos x.1);
  ceil_int = ceiling;
  is_finite = λ x. not (x.1 == 0);
  column_text = λ s. true;
  column_varchar = λ s. some s;
  column_jsonb = λ v. true;
  column_decimal = λ x. some x;
  column_time = λ t. t;
}

abbrev pub calm : {X : Type 0} → X → Condition X
calm x = record { local_now = 5; server_now = 7; fault = clear; chosen = x }

abbrev pub item : OrderItem sample
item = record {
  id = "i1";
  product_id = "p1";
  name = "Pen";
  quantity = pos 2;
  price = (pos 3, 1);
  subtotal = (pos 6, 1);
}

abbrev pub order : Order sample
order = record {
  id = "u1";
  customer_id = "c1";
  items = [];
  status = pending;
  total = (pos 0, 1);
  version = pos 1;
  created_at = 1;
  updated_at = 1;
  deleted_at = none;
}

abbrev pub row : Row sample
row = record {
  id = "u1";
  customer_id = "c1";
  items = arr nil;
  status = pending;
  total = (pos 0, 1);
  version = pos 1;
  created_at = 1;
  updated_at = 1;
  deleted_at = none;
}

abbrev pub database_of : List (Row sample) → Database sample
database_of rows = record { content = rows; executed = 0; upcoming = λ n. calm (λ rs. rs) }

abbrev pub redis_of : Keys sample → RedisServer sample
redis_of keys = record {
  content = keys;
  executed = 0;
  upcoming = λ n. calm (λ cursor pattern ks. ([], 0));
}

abbrev pub topic : Topic sample
topic = record { content = []; executed = 0; upcoming = λ n. calm tt }

abbrev pub world_of : List (Row sample) → Keys sample → World sample
world_of rows keys = record {
  database = database_of rows;
  redis = redis_of keys;
  topic = topic;
  uuids = λ n. "u2";
  times = λ n. n;
  drawn = 0;
  warnings = [];
}
