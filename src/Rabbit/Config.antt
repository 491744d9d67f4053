-- ===== src/Rabbit/Config.antt =====
-- The configuration of a RabbitMQ server (common/config/json_default.go), and the address that
-- net/rabbitmq and net/alirabbit make of it.
use soelib.Common.{ℕ, List, ◌∷◌, ◌++◌}
use soelib.Common.Int.{ℤ}
use soelib.Common.Bytes.{codes, decimal}
use soelib.Common.Text.{String}

pub record Rabbit : Type 0 where
  pub host : List ℕ
  pub port : ℤ
  pub username : List ℕ
  pub password : List ℕ
  pub vhost : List ℕ

pub record RabbitConsumerInfo : Type 0 where
  pub exchange_name : String
  pub queue_name : String
  pub exchange_type : String

-- net/rabbitmq
unfoldable pub rabbit_url : Rabbit → List ℕ
rabbit_url r =
    codes "amqp://"
    ++ (r.username
        ++ (b':' ∷ r.password ++ (b'@' ∷ r.host ++ (b':' ∷ decimal r.port ++ codes "/"))))

-- net/alirabbit, with the virtual host
unfoldable pub ali_rabbit_url : Rabbit → List ℕ
ali_rabbit_url r =
    codes "amqp://"
    ++ (r.username
        ++ (b':' ∷ r.password
            ++ (b'@' ∷ r.host ++ (b':' ∷ decimal r.port ++ (codes "/" ++ r.vhost)))))
